-- ===== src/Text/Laws.antt =====
-- Laws of the text functions.
use cf_tunnel.Prelude.{
  drop-append, ℕ, List, ◌==◌, inl, inr, Bool-cases, ◌≡◌, refl, ◌↔◌, ◌≢◌, true, [], ◌∷◌, ◌++◌, All,
  arith,
}
use cf_tunnel.Text.{Text, text_eq, split, add_head, has_prefix, trim_prefix}

pub text_eq_sound : (s t : Text) → text_eq s t ≡ true → s ≡ t
unfolding text_eq
text_eq_sound [] [] h = refl
text_eq_sound [] (d ∷ t) h = cc
text_eq_sound (c ∷ s) [] h = cc
text_eq_sound (c ∷ s) (d ∷ t) h = ground (arith, text_eq_sound s t)

pub text_eq_refl : (s : Text) → text_eq s s ≡ true
unfolding text_eq
text_eq_refl [] = refl
text_eq_refl (c ∷ s) = ground (arith, text_eq_refl s)

pub text_eq_iff : (s t : Text) → (text_eq s t ≡ true) ↔ (s ≡ t)
text_eq_iff s t = (text_eq_sound s t, λ e. rw e (text_eq_refl t))

-- No text of the list holds the code point.
abbrev pub Lacks : ℕ → Text → Type 0
Lacks b = All (λ c. c ≢ b)

-- Before a separator that neither part holds, the texts are determined.
pub join_injective :
    (b : ℕ) (s t u v : Text) → Lacks b s → Lacks b t → s ++ b ∷ u ≡ t ++ b ∷ v → (s ≡ t) × (u ≡ v)
join_injective b [] [] u v _ _ e = ground arith
join_injective b [] (d ∷ t) u v _ (p, _) e = ground arith
join_injective b (c ∷ s) [] u v (p, _) _ e = ground arith
join_injective b (c ∷ s) (d ∷ t) u v (_, h) (_, k) e =
    let (p, q) = join_injective b s t u v h k (ground arith) in ground arith

pub text_eq_sym : (s t : Text) → text_eq s t ≡ text_eq t s
unfolding text_eq
text_eq_sym [] [] = refl
text_eq_sym [] (d ∷ t) = refl
text_eq_sym (c ∷ s) [] = refl
text_eq_sym (c ∷ s) (d ∷ t) = ground (arith, text_eq_sym s t)

split-parts : (b : ℕ) (s : Text) → (p : Text) × (ps : List Text) × (split b s ≡ p ∷ ps)
unfolding split add_head
split-parts b [] = ([], [], refl)
split-parts b (c ∷ s) =
    let (p, ps, e) = split-parts b s in
    rw e (elim (Bool-cases (c == b)) [
      | inl y ↦ ([], (p ∷ ps), (ground arith))
      | inr n ↦ ((c ∷ p), ps, (ground arith))
    ])

-- Behind a separator, splitting goes on afresh.
pub split-append : (b : ℕ) (s t : Text) → split b (s ++ b ∷ t) ≡ split b s ++ split b t
unfolding split add_head
split-append b [] t = ground arith
split-append b (c ∷ s) t = ground (arith, split-append b s t, split-parts b s)

pub split-Lacks : (b : ℕ) (s : Text) → Lacks b s → split b s ≡ s ∷ []
unfolding split add_head
split-Lacks b [] h = refl
split-Lacks b (c ∷ s) (p, h) = ground (arith, split-Lacks b s h)

pub append-has_prefix : (p s : Text) → has_prefix (p ++ s) p ≡ true
unfolding has_prefix
append-has_prefix [] s = refl
append-has_prefix (c ∷ p) s = ground (arith, append-has_prefix p s)

-- trim_prefix takes off what stands in front.
pub trim_prefix-append : (p s : Text) → trim_prefix (p ++ s) p ≡ s
unfolding trim_prefix
trim_prefix-append p s = rw (append-has_prefix p s) (drop-append p s)
