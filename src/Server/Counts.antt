-- ===== src/Server/Counts.antt =====
-- The counts of `ipCounts`, as `acquireIP` and `releaseIP` change them.
use white_toyota_tacoma.Common.{
  ℕ, ◌-◌, ◌≡◌, ◌<◌, refl, inl, inr, [], ◌∷◌, leb, if◌then◌else◌, All, arith, Bool-cases,
}
use white_toyota_tacoma.Common.Bytes.{Bytes, same, same_iff}
use white_toyota_tacoma.Server.{Counts, count_of, set_count, delete, release_ip}

pub count_of-set_count :
    (i j : Bytes) (n : ℕ) (m : Counts)
    → count_of j (set_count i n m) ≡ (if same i j then n else count_of j m)
unfolding count_of set_count
count_of-set_count i j n [] = refl
count_of-set_count i j n ((k, v) ∷ m) =
    ground (arith, same_iff k i, same_iff k j, same_iff i j, count_of-set_count i j n m)

count_of-delete :
    (i j : Bytes) (m : Counts) → count_of j (delete i m) ≡ (if same i j then 0 else count_of j m)
unfolding count_of delete
count_of-delete i j [] = ground arith
count_of-delete i j ((k, v) ∷ m) =
    ground (arith, same_iff k i, same_iff k j, same_iff i j, count_of-delete i j m)

-- No key is left with a count of 0.
abbrev pub NoZero : Counts → Type 0
NoZero = All (λ p. 0 < p.1)

pub set_count-NoZero :
    (i : Bytes) (n : ℕ) (m : Counts) → 0 < n → NoZero m → NoZero (set_count i n m)
unfolding set_count
set_count-NoZero i n [] h z = (h, tt)
set_count-NoZero i n ((k, v) ∷ m) h z = ground (arith, set_count-NoZero i n m h z.1)

delete-NoZero : (i : Bytes) (m : Counts) → NoZero m → NoZero (delete i m)
unfolding delete
delete-NoZero i [] z = tt
delete-NoZero i ((k, v) ∷ m) z = ground (arith, delete-NoZero i m z.1)

pub count_of-release_ip :
    (i j : Bytes) (m : Counts)
    → 0 < count_of i m
    → count_of j (release_ip i m) ≡ (if same i j then count_of i m - 1 else count_of j m)
unfolding release_ip
count_of-release_ip i j m h =
    ground (arith, count_of-delete i j m, count_of-set_count i j (count_of i m - 1) m)

pub release_ip-NoZero : (i : Bytes) (m : Counts) → NoZero m → NoZero (release_ip i m)
unfolding release_ip
release_ip-NoZero i m z = elim (Bool-cases (leb (count_of i m) 1)) [
  | inl last ↦ rw last (delete-NoZero i m z)
  | inr more ↦ rw more (set_count-NoZero i (count_of i m - 1) m (ground arith) z)
]
