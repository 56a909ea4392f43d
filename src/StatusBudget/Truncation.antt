-- ===== src/StatusBudget/Truncation.antt =====
-- What truncation keeps of a text.
use Prim.Native.Char.{Char, len_utf8}
use Prim.Native.String.{len}
use Prim.Native.String.len as length_clauses
use text.Mathlib.TextLemmas.{nil-append, cons-append, append-nil}
use text.Mathlib.TextPositions.{len_utf8-pos}
use fluxseer_rca.Base.{
  ℕ, zero, suc, ltb, ◌+◌, ◌-◌, ◌≤◌, ◌<◌, String, false, leb, eqb, ◌≡◌, refl, sym, ap, ◌∙◌, ◌⊎◌, inl,
  inr, Bool-cases, leb→le, arith, ◌+++◌, ◌↔◌,
}
use fluxseer_rca.StatusBudget.Limits.{prefix_within, truncate_utf8}

-- `kept` is the longest part of `s` from its start, of whole characters, in `n` bytes.
pub record IsLongestPrefix (n : ℕ) (s kept : String) : Type 0 where
  pub dropped : String
  pub split : s ≡ kept +++ dropped
  pub fits : len kept ≤ n
  pub full :
      (dropped ≡ "")
      ⊎ ((c : Char) × (more : String) × (dropped ≡ String.◌∷◌ c more) × (n < len kept + len_utf8 c))

more_full :
    (n : ℕ) (c : Char) (kept dropped : String)
    → len_utf8 c ≤ n
    → (dropped ≡ "")
      ⊎ ((d : Char) × (more : String) × (dropped ≡ String.◌∷◌ d more)
          × (n - len_utf8 c < len kept + len_utf8 d))
    → (dropped ≡ "")
      ⊎ ((d : Char) × (more : String) × (dropped ≡ String.◌∷◌ d more)
          × (n < len (String.◌∷◌ c kept) + len_utf8 d))
more_full n c kept dropped w (inl p) = inl p
more_full n c kept dropped w (inr (d, more, p, q)) =
    inr (d, more, p, omega (arith, q, w, length_clauses.cons c kept))

keep_first :
    (n : ℕ) (c : Char) (s kept : String)
    → len_utf8 c ≤ n
    → IsLongestPrefix (n - len_utf8 c) s kept
    → IsLongestPrefix n (String.◌∷◌ c s) (String.◌∷◌ c kept)
keep_first n c s kept w f = record {
  dropped = f.dropped;
  split = ap (String.◌∷◌ c) f.split ∙ sym (cons-append c kept f.dropped);
  fits = omega (arith, length_clauses.cons c kept, f.fits, w);
  full = more_full n c kept f.dropped w f.full;
}

keep_nothing :
    (n : ℕ) (c : Char) (s : String) → n < len_utf8 c → IsLongestPrefix n (String.◌∷◌ c s) ""
keep_nothing n c s w = record {
  dropped = String.◌∷◌ c s;
  split = sym (nil-append _);
  fits = omega arith;
  full = inr (c, s, refl, omega (arith, w));
}

prefix_longest : (n : ℕ) (s : String) → IsLongestPrefix n s (prefix_within n s)
unfolding prefix_within
prefix_longest n String.[] = record {
  dropped = "";
  split = refl;
  fits = omega arith;
  full = inl refl;
}
prefix_longest n (String.◌∷◌ c s) = elim (Bool-cases (leb (len_utf8 c) n)) [
  | inl e ↦ rw e (
      keep_first n c s (prefix_within (n - len_utf8 c) s) (leb→le _ _ e)
        (prefix_longest (n - len_utf8 c) s))
  | inr e ↦ rw e (keep_nothing n c s (ground arith))
]

whole : (n : ℕ) (s : String) → len s ≤ n → IsLongestPrefix n s s
whole n s h = record { dropped = ""; split = sym (append-nil s); fits = h; full = inl refl }

none_of : (s : String) → IsLongestPrefix 0 s ""
none_of String.[] = whole 0 "" (omega arith)
none_of (String.◌∷◌ c s) = let (k, p) = len_utf8-pos c in keep_nothing 0 c s (omega (arith, p))

too_long :
    (n : ℕ) (value kept : String) → leb (len value) n ≡ false → len kept ≤ n → kept ≡ value → ⊥
too_long n value kept e f p = ground (arith, ap len p)

empty_iff : (s : String) → (ltb 0 (len s) ≡ false) ↔ ("" ≡ s)
empty_iff String.[] = ((λ h. refl), (λ h. refl))
empty_iff (String.◌∷◌ c s) =
    let (k, p) = len_utf8-pos c in
    ((λ h. absurd (nonempty k c s p h)), (λ h. absurd (shorter k c s p (ap len h))))
  where
    nonempty :
        (k : ℕ) (c : Char) (s : String)
        → len_utf8 c ≡ suc k
        → ltb 0 (len (String.◌∷◌ c s)) ≡ false
        → ⊥
    nonempty k c s p h = ground (arith, length_clauses.cons c s)

    shorter :
        (k : ℕ) (c : Char) (s : String) → len_utf8 c ≡ suc k → len "" ≡ len (String.◌∷◌ c s) → ⊥
    shorter k c s p h = omega (arith, length_clauses.cons c s)

nonzero : (n : ℕ) → eqb (suc n) 0 ≡ false
nonzero n = ground arith

-- A truncated text is the longest part of the text, from its start and of whole characters, that
-- has at most the given number of bytes; and it is marked as truncated exactly where it is not the
-- whole text.
pub truncate_utf8-IsLongestPrefix :
    (value : String) (n : ℕ)
    → IsLongestPrefix n value (truncate_utf8 value n).text
      × (((truncate_utf8 value n).truncated ≡ false) ↔ ((truncate_utf8 value n).text ≡ value))
unfolding truncate_utf8
truncate_utf8-IsLongestPrefix value zero = (none_of value, empty_iff value)
truncate_utf8-IsLongestPrefix value (suc n) = elim (Bool-cases (leb (len value) (suc n))) [
  | inl e ↦ rw (nonzero n, e) (whole (suc n) value (leb→le _ _ e), ((λ h. refl), (λ h. refl)))
  | inr e ↦
      let longest = prefix_longest (suc n) value in
      rw (nonzero n, e)
        (longest, ((λ h. cc), (λ h. absurd (too_long (suc n) value _ e longest.fits h))))
]
