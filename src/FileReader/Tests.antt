-- ===== src/FileReader/Tests.antt =====
-- A stream with a file's content in it, and the theorem there.
use baf.Base.{
  ℕ, suc, ◌≡◌, refl, arith, ◌||◌, List, [], ◌∷◌, some, ok, err, length, ◌==◌, beq, if◌then◌else◌,
}
use baf.Source.{Source}
use baf.FileReader
use baf.FileReader.{io, hash_mismatch, read_to_vec}
use baf.FileReader.Whole.{read_to_vec_lem}

-- A function in place of the hash.
abbrev hash : List ℕ → List ℕ
hash bytes = length bytes ∷ []

abbrev stream : Source
stream = record { content = 9 ∷ 1 ∷ 2 ∷ 3 ∷ 8 ∷ []; pos = 1 }

read_to_vec_lem_example :
    read_to_vec hash suc (FileReader.new stream 3 (4 ∷ []))
    ≡ some (
        if (3 == 0) || beq (hash (1 ∷ 2 ∷ 3 ∷ [])) (4 ∷ [])
        then ok (1 ∷ 2 ∷ 3 ∷ [])
        else err (io (hash_mismatch (4 ∷ []) (hash (1 ∷ 2 ∷ 3 ∷ [])))))
read_to_vec_lem_example =
    read_to_vec_lem hash suc (λ k. omega arith) stream (4 ∷ []) (1 ∷ 2 ∷ 3 ∷ []) (8 ∷ []) refl
