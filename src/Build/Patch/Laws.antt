-- ===== src/Build/Patch/Laws.antt =====
-- When a patch of build.rs applies, and what it leaves.
use mathlib.Core.List.{append_cancel_left, append_assoc}
use esp_nimble_host.Prelude.{
  ==_iff, ◌==◌, Bool-cases, length-append, ◌<◌, ℕ, zero, suc, ◌≡◌, refl, sym, ap, ◌∙◌, subst, ◌≢◌,
  none, some, List, [], ◌∷◌, ◌++◌, length, arith, Option-cases, inl, inr,
}
use mathlib.Core.Option.{some-injective}
use Prim.Native.String.{String}
use esp_nimble_host.Build.Text.{strip_prefix, strip_prefix-some, strip_prefix-append}
use esp_nimble_host.Build.Patch.{find, count_from, count, replace_first, Tree, write, apply_patch}

find-some :
    (needle text before after : List ℕ)
    → find needle text ≡ some (before, after)
    → text ≡ before ++ (needle ++ after)
unfolding find
find-some needle [] before after h = ground (arith, strip_prefix-some needle [] after)
find-some needle (c ∷ cs) before after h = elim (Option-cases (strip_prefix needle (c ∷ cs))) [
  | inl e ↦ elim (Option-cases (find needle cs)) [
    | inl f ↦ absurd (ground arith)
    | inr ((b, a), f) ↦ ground (arith, find-some needle cs b a f)
  ]
  | inr (a, e) ↦ ground (arith, strip_prefix-some needle (c ∷ cs) a e)
]

find_here :
    (needle text after : List ℕ)
    → strip_prefix needle text ≡ some after
    → find needle text ≡ some ([], after)
unfolding find
find_here needle [] after h = ground arith
find_here needle (c ∷ cs) after h = ground arith

find_present : (needle before after : List ℕ) → find needle (before ++ (needle ++ after)) ≢ none
unfolding find
find_present needle [] after h =
    ground (arith, find_here needle (needle ++ after) after (strip_prefix-append needle after))
find_present needle (c ∷ before) after h = ground (arith, find_present needle before after)

-- The needle occurs in the text at one place only.
abbrev pub Once : List ℕ → List ℕ → List ℕ → List ℕ → Type 0
Once needle text before after =
    (text ≡ before ++ (needle ++ after)) × ((b a : List ℕ) → text ≡ b ++ (needle ++ a) → b ≡ before)

find-Once :
    (needle text before after : List ℕ)
    → Once needle text before after
    → find needle text ≡ some (before, after)
find-Once needle text before after (e, only) = elim (Option-cases (find needle text)) [
  | inl f ↦ absurd (find_present needle before after (subst (λ t. find needle t ≡ none) e f))
  | inr ((b, a), f) ↦
      let t = find-some needle text b a f in
      let same : b ≡ before = only b a t in
      let rest : before ++ (needle ++ a) ≡ before ++ (needle ++ after) =
        sym (ap (λ x. x ++ (needle ++ a)) same) ∙ sym t ∙ e in
      let tail : a ≡ after =
        append_cancel_left needle a after (append_cancel_left before _ _ rest) in
      f ∙ ap (λ x. some (x, a)) same ∙ ap (λ x. some (before, x)) tail
]

after-Once :
    (needle text before after : List ℕ)
    → 0 < length needle
    → Once needle text before after
    → find needle after ≡ none
after-Once needle text before after n (e, only) = elim (Option-cases (find needle after)) [
  | inl f ↦ f
  | inr ((b, a), f) ↦
      let t : text ≡ (before ++ (needle ++ b)) ++ (needle ++ a) =
        e ∙ ap (λ x. before ++ (needle ++ x)) (find-some needle after b a f) ∙ simp append_assoc in
      let l : length (before ++ (needle ++ b)) ≡ length before = ap length (only _ a t) in
      absurd (omega (arith, length-append before (needle ++ b), length-append needle b))
]

count_from-none :
    (fuel : ℕ) (needle text : List ℕ) → find needle text ≡ none → count_from fuel needle text ≡ 0
unfolding count_from
count_from-none zero needle text h = refl
count_from-none (suc fuel) needle text h = ground arith

count_from_one :
    (fuel : ℕ) (needle text : List ℕ)
    → count_from (suc fuel) needle text ≡ 1
    → (b : List ℕ) × (a : List ℕ) × (find needle text ≡ some (b, a))
      × (count_from fuel needle a ≡ 0)
unfolding count_from
count_from_one fuel needle text h = elim (Option-cases (find needle text)) [
  | inl f ↦ absurd (ground arith)
  | inr ((b, a), f) ↦ (b, a, f, ground arith)
]

count_from_zero :
    (fuel : ℕ) (needle text : List ℕ)
    → 0 < fuel
    → count_from fuel needle text ≡ 0
    → find needle text ≡ none
unfolding count_from
count_from_zero zero needle text p h = absurd (omega arith)
count_from_zero (suc fuel) needle text p h = ground arith

count-Once :
    (needle src before after : List ℕ)
    → 0 < length needle
    → Once needle src before after
    → count needle src ≡ 1
unfolding count count_from
count-Once needle src before after n o =
    let f = find-Once needle src before after o in
    let z = count_from-none (length src) needle after (after-Once needle src before after n o) in
    ground arith

-- A patch applies to a file in which its pattern occurs at one place, and replaces it there. No other
-- file changes.
pub apply_patch-Once :
    (file : String) (needle replacement src before after : List ℕ) (tree : Tree)
    → 0 < length needle
    → tree file ≡ some src
    → Once needle src before after
    → apply_patch file needle replacement tree
      ≡ some (write file (before ++ (replacement ++ after)) tree)
unfolding apply_patch replace_first
apply_patch-Once file needle replacement src before after tree n r o =
    let f = find-Once needle src before after o in
    let c = count-Once needle src before after n o in ground arith

apply_patch-count :
    (file : String) (needle replacement src : List ℕ) (tree tree' : Tree)
    → tree file ≡ some src
    → apply_patch file needle replacement tree ≡ some tree'
    → (count needle src ≡ 1) × (write file (replace_first needle replacement src) tree ≡ tree')
unfolding apply_patch
apply_patch-count file needle replacement src tree tree' e h =
    elim (Bool-cases (count needle src == 1)) [
      | inl c ↦ ((==_iff _ _).0 c, some-injective _ _ (sym (rw (e, c, apply_patch) refl) ∙ h))
      | inr c ↦ let n : none ≡ some tree' = sym (rw (e, c, apply_patch) refl) ∙ h in cc
    ]

apply_patch-file :
    (file : String) (needle replacement : List ℕ) (tree tree' : Tree)
    → apply_patch file needle replacement tree ≡ some tree'
    → (src : List ℕ) × (tree file ≡ some src)
unfolding apply_patch
apply_patch-file file needle replacement tree tree' h = elim (Option-cases (tree file)) [
  | inl e ↦ let n : none ≡ some tree' = sym (rw (e, apply_patch) refl) ∙ h in cc
  | inr (src, e) ↦ (src, e)
]

-- Whenever a patch applies, it replaced one occurrence of its pattern, and there is none behind it.
pub apply_patch-some :
    (file : String) (needle replacement : List ℕ) (tree tree' : Tree)
    → 0 < length needle
    → apply_patch file needle replacement tree ≡ some tree'
    → (before : List ℕ) × (after : List ℕ) × (tree file ≡ some (before ++ (needle ++ after)))
      × (tree' ≡ write file (before ++ (replacement ++ after)) tree)
      × ((b a : List ℕ) → after ≢ b ++ (needle ++ a))
unfolding replace_first count
apply_patch-some file needle replacement tree tree' n h =
    let (src, r) = apply_patch-file file needle replacement tree tree' h in
    let (c, w) = apply_patch-count file needle replacement src tree tree' r h in
    let (b, a, f, z) = count_from_one (length src) needle src c in
    let t = find-some needle src b a f in
    let long : 0 < length src =
      omega (arith, ap length t, length-append b (needle ++ a), length-append needle a) in
    let last = count_from_zero (length src) needle a long z in
    (
      b,
      a,
      r ∙ ap some t,
      sym w ∙ (rw (f, replace_first) refl),
      λ b' a' e. find_present needle b' a' (subst (λ x. find needle x ≡ none) e last),
    )
