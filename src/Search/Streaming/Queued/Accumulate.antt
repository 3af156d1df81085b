-- ===== src/Search/Streaming/Queued/Accumulate.antt =====
-- search/simple_search_backend.cpp: the chunks that the callback of Search keeps.
use vxcore.Search.{ContentSearchMatchedFile}
use vxcore.Search.Streaming.{set_chunk, resized, accumulate, Chunks}
use vxcore.Prelude.{
  inr, zero, some, refl, arith, inl, get_elem?, ap, ◌⊎◌, ◌≢◌, ◌∷◌, ◌∙◌, ◌<◌, suc, length, [], List,
  ℕ, ◌≡◌,
}

length-set_chunk :
    (i : ℕ) (c : List ContentSearchMatchedFile) (cs : Chunks)
    → length (set_chunk i c cs) ≡ length cs
unfolding set_chunk
length-set_chunk i c [] = refl
length-set_chunk zero c (d ∷ cs) = refl
length-set_chunk (suc i) c (d ∷ cs) = ap suc (length-set_chunk i c cs)

set_chunk-here :
    (i : ℕ) (c : List ContentSearchMatchedFile) (cs : Chunks)
    → i < length cs
    → get_elem? (set_chunk i c cs) i ≡ some c
unfolding set_chunk
set_chunk-here i c [] h = absurd (omega (arith, h))
set_chunk-here zero c (d ∷ cs) h = refl
set_chunk-here (suc i) c (d ∷ cs) h = set_chunk-here i c cs (omega (arith, h))

set_chunk-other :
    (i j : ℕ) (c : List ContentSearchMatchedFile) (cs : Chunks)
    → i ≢ j
    → get_elem? (set_chunk i c cs) j ≡ get_elem? cs j
unfolding set_chunk
set_chunk-other i j c [] h = refl
set_chunk-other zero zero c (d ∷ cs) h = absurd (h refl)
set_chunk-other zero (suc j) c (d ∷ cs) h = refl
set_chunk-other (suc i) zero c (d ∷ cs) h = refl
set_chunk-other (suc i) (suc j) c (d ∷ cs) h = set_chunk-other i j c cs (λ e. h (ap suc e))

length-resized : (n : ℕ) → length (resized n) ≡ n
unfolding resized
length-resized zero = refl
length-resized (suc n) = ap suc (length-resized n)

-- The vector has the chunks of the search, or none yet.
abbrev pub IsSized : ℕ → Chunks → Type 0
IsSized total cs = (cs ≡ []) ⊎ (length cs ≡ total)

pub accumulate-IsSized :
    (b total : ℕ) (c : List ContentSearchMatchedFile) (cs : Chunks)
    → IsSized total cs
    → length (accumulate b total c cs) ≡ total
unfolding accumulate
accumulate-IsSized b total c [] h = length-set_chunk b c (resized total) ∙ length-resized total
accumulate-IsSized b total c (d ∷ cs) (inl h) = ground (arith, h)
accumulate-IsSized b total c (d ∷ cs) (inr h) = length-set_chunk b c (d ∷ cs) ∙ h

pub accumulate-here :
    (b total : ℕ) (c : List ContentSearchMatchedFile) (cs : Chunks)
    → IsSized total cs
    → b < total
    → get_elem? (accumulate b total c cs) b ≡ some c
unfolding accumulate
accumulate-here b total c [] h k =
    set_chunk-here b c (resized total) (omega (arith, k, length-resized total))
accumulate-here b total c (d ∷ cs) (inl h) k = ground (arith, h)
accumulate-here b total c (d ∷ cs) (inr h) k = set_chunk-here b c (d ∷ cs) (omega (arith, h, k))

pub accumulate-other :
    (b j total : ℕ) (c e : List ContentSearchMatchedFile) (cs : Chunks)
    → b ≢ j
    → get_elem? cs j ≡ some e
    → get_elem? (accumulate b total c cs) j ≡ some e
unfolding accumulate
accumulate-other b j total c e [] h k = ground (arith, k)
accumulate-other b j total c e (d ∷ cs) h k = set_chunk-other b j c (d ∷ cs) h ∙ k
