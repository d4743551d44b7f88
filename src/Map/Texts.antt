-- ===== src/Map/Texts.antt =====
-- Keys of ce_util/ce_map.c compared and hashed: what counts is their bytes.
use cloudeagle.Common.{ℕ, zero, suc, ◌%◌, ◌^◌, ◌≡◌, ◌≢◌, refl, arith, true, List, [], ◌∷◌, length}
use cloudeagle.Common.Memory.{Memory, load}
use cloudeagle.Map.{CeStr, bytes_of, memcmp, is_zero, ce_memn2cmp, hash_from, string_hash}

memcmp_same : (s t : List ℕ) → length s ≡ length t → is_zero (memcmp (length s) s t) ≡ true → s ≡ t
memcmp_same [] [] n e = refl
memcmp_same [] (b ∷ t) n e = absurd (omega arith)
memcmp_same (a ∷ s) [] n e = absurd (omega arith)
memcmp_same (a ∷ s) (b ∷ t) n e = ground (arith, memcmp_same s t)

memcmp_self : (s : List ℕ) → is_zero (memcmp (length s) s s) ≡ true
memcmp_self [] = refl
memcmp_self (a ∷ s) = ground (arith, memcmp_self s)

pub ce_memn2cmp_self : (s : List ℕ) → is_zero (ce_memn2cmp s s) ≡ true
unfolding ce_memn2cmp
ce_memn2cmp_self s = ground (arith, memcmp_self s)

pub ce_memn2cmp_same : (s t : List ℕ) → is_zero (ce_memn2cmp s t) ≡ true → s ≡ t
unfolding ce_memn2cmp
ce_memn2cmp_same s t e = ground (arith, memcmp_same s t)

-- The hash of a key's bytes.
abbrev pub text_hash : List ℕ → ℕ
text_hash t = hash_from 0 t % 2 ^ 31

load-zero : (mem : Memory) (a n : ℕ) → n ≡ 0 → load mem a n ≡ []
unfolding load
load-zero mem a zero e = refl
load-zero mem a (suc n) e = absurd (omega arith)

pub string_hash-lem :
    (mem : Memory) (key : CeStr)
    → key.address ≢ 0
    → string_hash mem key ≡ text_hash (bytes_of mem key)
unfolding string_hash load
string_hash-lem mem key h = ground (arith, load-zero mem key.address)
