-- ===== src/Domain/Index/Named.antt =====
-- src/domain/pcr/index.cpp: the constants of the class `index`, which are made without the check of
-- its constructor.
use tpmkit.Base.{ℕ, ◌≡◌, refl, List, [], ◌∷◌}
use tpmkit.Outcome.{returns}
use tpmkit.Domain.Index.{
  Index, make_index, insert, insert_range, validate_index_range, make_index_range,
}

-- `index{value, unchecked_tag{}}`
abbrev unchecked : ℕ → Index
unchecked value = record { value = value }

abbrev pub application : Index
application = unchecked 23

abbrev pub bootloader_8 : Index
bootloader_8 = unchecked 8

abbrev pub bootloader_9 : Index
bootloader_9 = unchecked 9

abbrev pub debug : Index
debug = unchecked 16

abbrev pub drtm_17 : Index
drtm_17 = unchecked 17

abbrev pub drtm_18 : Index
drtm_18 = unchecked 18

abbrev pub drtm_19 : Index
drtm_19 = unchecked 19

abbrev pub drtm_20 : Index
drtm_20 = unchecked 20

abbrev pub drtm_21 : Index
drtm_21 = unchecked 21

abbrev pub drtm_22 : Index
drtm_22 = unchecked 22

abbrev pub firmware_0 : Index
firmware_0 = unchecked 0

abbrev pub firmware_1 : Index
firmware_1 = unchecked 1

abbrev pub firmware_2 : Index
firmware_2 = unchecked 2

abbrev pub firmware_3 : Index
firmware_3 = unchecked 3

abbrev pub firmware_4 : Index
firmware_4 = unchecked 4

abbrev pub firmware_5 : Index
firmware_5 = unchecked 5

abbrev pub firmware_6 : Index
firmware_6 = unchecked 6

abbrev pub firmware_7 : Index
firmware_7 = unchecked 7

abbrev pub ima : Index
ima = unchecked 10

abbrev pub os_11 : Index
os_11 = unchecked 11

abbrev pub os_12 : Index
os_12 = unchecked 12

abbrev pub os_13 : Index
os_13 = unchecked 13

abbrev pub os_14 : Index
os_14 = unchecked 14

abbrev pub os_15 : Index
os_15 = unchecked 15

abbrev named : List Index
named =
    application ∷ bootloader_8 ∷ bootloader_9 ∷ debug ∷ drtm_17 ∷ drtm_18 ∷ drtm_19 ∷ drtm_20
    ∷ drtm_21 ∷ drtm_22 ∷ firmware_0 ∷ firmware_1 ∷ firmware_2 ∷ firmware_3 ∷ firmware_4
    ∷ firmware_5 ∷ firmware_6 ∷ firmware_7 ∷ ima ∷ os_11 ∷ os_12 ∷ os_13 ∷ os_14 ∷ os_15 ∷ []

abbrev set_of : List Index → List Index
set_of [] = []
set_of (i ∷ is) = insert i (set_of is)

-- Together they are the PCRs 0 to 23, as the constructor makes them.
named_range : make_index_range 0 24 ≡ returns (set_of named)
unfolding make_index_range validate_index_range insert_range make_index insert
named_range = refl
