-- ===== src/Glob/Correct.antt =====
-- `globMatch` against the meaning of patterns.
use dinamite.Shared.{
  ℕ, Bytes, codes, same, same_iff, true, false, [], ◌∷◌, ◌++◌, ◌≡◌, ◌≢◌, arith, inl, inr, refl, ◌⊎◌,
  sym, subst,
}
use dinamite.Glob.{star, glob_match, Matches, done, byte, leave, take, double_star_end, is_literal}

-- The tests of one call on two non-empty sides.
glob_match-step :
    (g c : ℕ) (p s : Bytes)
    → glob_match (g ∷ p) (c ∷ s) ≡ true
    → (g ≡ star)
        × ((glob_match p s ≡ true) ⊎ (glob_match (g ∷ p) s ≡ true) ⊎ (glob_match p (c ∷ s) ≡ true))
      ⊎ (g ≢ star) × (g ≡ c) × (glob_match p s ≡ true)
unfolding glob_match
glob_match-step g c p s h = ground arith

glob_match_sound : (g s : Bytes) → glob_match g s ≡ true → Matches g s
unfolding glob_match
glob_match_sound [] [] h = done
glob_match_sound [] (c ∷ s) h = cc h
glob_match_sound (g ∷ p) [] h =
    subst (λ q. Matches q []) (sym ((same_iff (g ∷ p) (codes "*")).0 h)) (leave refl done)
glob_match_sound (g ∷ p) (c ∷ s) h = elim (glob_match-step g c p s h) [
  | inl (e, inl both) ↦ take e (leave e (glob_match_sound p s both))
  | inl (e, inr (inl stay)) ↦ take e (glob_match_sound (g ∷ p) s stay)
  | inl (e, inr (inr skip)) ↦ leave e (glob_match_sound p (c ∷ s) skip)
  | inr (n, e, rest) ↦ subst (λ d. Matches (g ∷ p) (d ∷ s)) e (byte n (glob_match_sound p s rest))
]

-- Only stars match the empty text.
Matches-nil :
    {p : Bytes} (g : ℕ) → g ≡ star → Matches p [] → double_star_end (g ∷ p) ≡ false → p ≡ []
unfolding double_star_end
Matches-nil g e done h = refl
Matches-nil g e (leave {g = a} {p = []} ea m) h = ground arith
Matches-nil g e (leave {g = a} {p = b ∷ p} ea m) h = cc (Matches-nil a ea m h)

double_star_end-tail :
    (g : ℕ) (p : Bytes) → double_star_end (g ∷ p) ≡ false → double_star_end p ≡ false
unfolding double_star_end
double_star_end-tail g [] h = refl
double_star_end-tail g (a ∷ []) h = refl
double_star_end-tail g (a ∷ b ∷ p) h = h

glob_match_complete :
    {g s : Bytes} → Matches g s → double_star_end g ≡ false → glob_match g s ≡ true
unfolding glob_match
glob_match_complete done h = refl
glob_match_complete (byte {c} {p} {s} n m) h =
    ground (arith, glob_match_complete m (double_star_end-tail c p h))
glob_match_complete (leave {g} {p} {s = []} e m) h =
    let nil : p ≡ [] = Matches-nil g e m h in (same_iff (g ∷ p) (codes "*")).1 (cc)
glob_match_complete (leave {g} {p} {s = c ∷ s} e m) h =
    ground (arith, glob_match_complete m (double_star_end-tail g p h))
glob_match_complete (take {g} {c} {p} {s} e m) h = ground (arith, glob_match_complete m h)

-- A text that `globMatch` accepts matches the pattern, for every pattern; a text that matches is accepted if the pattern does not end in two stars.
pub glob_match-Matches :
    (g s : Bytes)
    → (glob_match g s ≡ true → Matches g s)
      × (double_star_end g ≡ false → Matches g s → glob_match g s ≡ true)
glob_match-Matches g s = (glob_match_sound g s, λ h m. glob_match_complete m h)

Matches-append_stars : (p : Bytes) → is_literal p ≡ true → Matches (p ++ star ∷ star ∷ []) p
unfolding is_literal
Matches-append_stars [] h = leave refl (leave refl done)
Matches-append_stars (c ∷ p) h = byte (ground arith) (Matches-append_stars p (ground arith))

glob_match-append_stars :
    (p : Bytes) → is_literal p ≡ true → glob_match (p ++ star ∷ star ∷ []) p ≡ false
unfolding glob_match is_literal same
glob_match-append_stars [] h = refl
glob_match-append_stars (c ∷ p) h = ground (arith, glob_match-append_stars p)

-- A pattern that is a text with no star followed by two stars matches that text, and `globMatch` rejects it.
pub glob_match-misses_double_star :
    (p : Bytes)
    → is_literal p ≡ true
    → Matches (p ++ star ∷ star ∷ []) p × (glob_match (p ++ star ∷ star ∷ []) p ≡ false)
glob_match-misses_double_star p h = (Matches-append_stars p h, glob_match-append_stars p h)
