-- ===== src/Collections/Tests.antt =====
-- Runs of the collections on a few short texts and numbers.
use darkui.Base.{ℕ, ◌≡◌, refl, true, [], ◌∷◌, none, some, arith, replicate, if◌then◌else◌}
use darkui.CString.{bytes}
use darkui.Names.{exact_match}
use darkui.Collections.{Array, Hash, hash_new, hash_set, hash_get}
use darkui.Collections.Growth.{IsValid}
use darkui.Collections.Maps.{Holds, hash_new-Holds, hash_set-Holds, hash_get-hash_set}

abbrev full_array : Array ℕ
full_array = record { count = 8; capacity = 8; items = replicate 8 (some 1) }

full_array-IsValid : IsValid full_array
full_array-IsValid = record { block = refl; within = omega arith; room = omega arith }

abbrev one_name : Hash
one_name = hash_set true true hash_new (bytes "a.gb") (bytes "A")

one_name-Holds : Holds one_name ((bytes "a.gb", bytes "A") ∷ [])
one_name-Holds = hash_set-Holds hash_new [] (bytes "a.gb") (bytes "A") hash_new-Holds

hash_get-hash_set_example :
    hash_get (hash_set true true one_name (bytes "a.gb") (bytes "B")) (bytes "a.gb")
    ≡ (elim (hash_get one_name (bytes "a.gb")) [
      | some w ↦ some w
      | none ↦ if exact_match (bytes "a.gb") (bytes "a.gb") then some (bytes "B") else none
    ])
hash_get-hash_set_example =
    hash_get-hash_set one_name ((bytes "a.gb", bytes "A") ∷ []) (bytes "a.gb") (bytes "B")
      (bytes "a.gb") one_name-Holds
