-- ===== src/Keyvault/Judge.antt =====
-- What main takes a variable to need, by what is held under its name.
use mathlib.Core.Path.{subst}
use k8s_homelab.Prelude.{
  false, ==_of_eq, ==_eq, inr, none, option_eq, list_eq, ◌&&◌, ◌∙◌, nat_eq, ap, ◌||◌, ==_refl, sym,
  some, inl, ◌==◌, if◌then◌else◌, true, refl, not, Bool-cases,
}
use k8s_homelab.Prelude.{Bool, Option, ◌≡◌}
use k8s_homelab.Prelude.Text.{Text}
use k8s_homelab.Keyvault.Main.{update, plain, same, Action, is_written, judge}

||_true : (b : Bool) → (b || true) ≡ true
||_true true = refl
||_true false = refl

module _ (encoded : Bool) (wanted : Text) (decoded : Option Text) (d : Text) where
  abbrev is_plain : Bool
  is_plain = not encoded && some d == decoded

  judge-same : (d == wanted) ≡ true → judge encoded wanted decoded (some d) ≡ (same, wanted)
  unfolding judge
  judge-same e = rw e refl

  judge-plain :
      (d == wanted) ≡ false → is_plain ≡ true → judge encoded wanted decoded (some d) ≡ (plain, d)
  unfolding judge
  judge-plain e c = rw (e, c) refl

  judge-update :
      (d == wanted) ≡ false
      → is_plain ≡ false
      → judge encoded wanted decoded (some d) ≡ (update, wanted)
  unfolding judge
  judge-update e c = rw (e, c) refl

  -- What holds of each judgement of a digest that is held.
  judge-elim :
      (P : Action × Text → Type 0)
      → ((d == wanted) ≡ true → P (same, wanted))
      → (is_plain ≡ true → P (plain, d))
      → P (update, wanted)
      → P (judge encoded wanted decoded (some d))
  judge-elim P a b c = elim (Bool-cases (d == wanted)) [
    | inl e ↦ subst P (sym (judge-same e)) (a e)
    | inr e ↦ elim (Bool-cases is_plain) [
      | inl f ↦ subst P (sym (judge-plain e f)) (b f)
      | inr f ↦ subst P (sym (judge-update e f)) c
    ]
  ]

pub judge_ready :
    (encoded : Bool) (wanted : Text) (decoded have : Option Text)
    → (if is_written (judge encoded wanted decoded have).0
        then (judge encoded wanted decoded have).1 == wanted
        else have == some (judge encoded wanted decoded have).1)
      ≡ true
unfolding judge
judge_ready encoded wanted decoded none = ==_refl wanted
judge_ready encoded wanted decoded (some d) =
    judge-elim encoded wanted decoded d
      (λ p. (if is_written p.0 then p.1 == wanted else some d == some p.1) ≡ true)
      (λ e. ==_of_eq (some d) (some wanted) (ap some (==_eq d wanted e))) (λ _. ==_refl (some d))
      (==_refl wanted)

pub judge_copied :
    (encoded : Bool) (wanted : Text) (decoded have held : Option Text)
    → (held == some (judge encoded wanted decoded have).1) ≡ true
    → (held == some wanted || (not encoded && held == decoded)) ≡ true
unfolding judge
judge_copied encoded wanted decoded none held = λ h. rw h refl
judge_copied encoded wanted decoded (some d) held =
    judge-elim encoded wanted decoded d
      (λ p.
        (held == some p.1) ≡ true
        → (held == some wanted || (not encoded && held == decoded)) ≡ true)
      (λ _ h. rw h refl)
      (λ c h.
        subst (λ x. (x == some wanted || (not encoded && x == decoded)) ≡ true)
          (sym (==_eq held (some d) h))
          (ap (λ b. some d == some wanted || b) c ∙ ||_true (some d == some wanted)))
      (λ h. rw h refl)
