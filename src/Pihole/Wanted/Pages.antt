-- ===== src/Pihole/Wanted/Pages.antt =====
-- The pages of a listing of NetBox's API, as a relation that `every` computes.
use mathlib.Core.List.{append-nil, append_assoc}
use k8s_homelab.Prelude.{
  ℕ, zero, suc, ◌≤◌, ◌≡◌, refl, ◌∙◌, List, [], ◌++◌, arith, nat_eq, >>=-eq-some, Option, none, some,
}
use k8s_homelab.Prelude.Text.{Text}
use k8s_homelab.Pihole.Wanted.{Answer, answered_page, every}

module _ {A : Type 0} (call : Text → Option (Answer A)) where
  -- The rows from a page on: every page answers 200 with results, and names the next one.
  pub data Pages : Option Text → List A → Type 0 where
    last : Pages none []
    page :
        {url : Text} {answer : Answer A} {rows rest all : List A} {next : Option Text}
        → call url ≡ some answer
        → answer.status ≡ 200
        → answer.body ≡ some (rows, next)
        → Pages next rest
        → all ≡ rows ++ rest
        → Pages (some url) all

  unfoldable pub page_count : {url : Option Text} {rows : List A} → Pages url rows → ℕ
  page_count last = 0
  page_count (page c s b p e) = suc (page_count p)

  answered_page_ok :
      (answer : Answer A) (rows : List A) (next : Option Text)
      → answer.status ≡ 200
      → answer.body ≡ some (rows, next)
      → answered_page call answer ≡ some (rows, next)
  unfolding nat_eq
  answered_page_ok answer rows next s b = ground arith

  -- With a round of fuel for each page, `every` returns the rows of the listing.
  pub every-of-Pages :
      (fuel : ℕ) {url : Option Text} {rows : List A} (p : Pages url rows) (out : List A)
      → page_count p ≤ fuel
      → every call fuel url out ≡ some (out ++ rows)
  unfolding every page_count
  every-of-Pages zero last out h = rw append-nil
  every-of-Pages (suc fuel) last out h = rw append-nil
  every-of-Pages zero (page c s b p e) out h = absurd (omega arith)
  every-of-Pages (suc fuel) (page {answer} {rows} {rest} {next} c s b p e) out h =
      rw (c, every)
        (rw (answered_page_ok answer rows next s b, every)
          (every-of-Pages fuel p (out ++ rows) (omega arith) ∙ rw (e, append_assoc)))

  answered_page-inv :
      (answer : Answer A) (rows : List A) (next : Option Text)
      → answered_page call answer ≡ some (rows, next)
      → (answer.status ≡ 200) × (answer.body ≡ some (rows, next))
  answered_page-inv answer rows next h = (ground arith, ground arith)

  -- What `every` returns is such a listing.
  Pages-every :
      (fuel : ℕ) (url : Option Text) (out result : List A)
      → every call fuel url out ≡ some result
      → (rows : List A) × Pages url rows × (result ≡ out ++ rows)
  unfolding every
  Pages-every zero none out result h = ([], last, rw append-nil (ground arith))
  Pages-every (suc fuel) none out result h = ([], last, rw append-nil (ground arith))
  Pages-every zero (some url) out result h = absurd (cc)
  Pages-every (suc fuel) (some url) out result h =
      let (answer, c, h₁) = >>=-eq-some (call url) _ h in
      let (p, b, h₂) = >>=-eq-some (answered_page call answer) _ h₁ in
      let (s, k) = answered_page-inv answer p.0 p.1 b in
      let (rest, more, e) = Pages-every fuel p.1 (out ++ p.0) result h₂ in
      (p.0 ++ rest, page c s k more refl, e ∙ append_assoc out p.0 rest)
