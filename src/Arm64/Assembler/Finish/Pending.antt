-- ===== src/Arm64/Assembler/Finish/Pending.antt =====
-- The loop over the fixups of Assembler::finish (src/arm64/Assembler.cpp): branches that are still to be
-- resolved, and what they are once they are.
use rosa.Prelude.{
  length-set, get_elem?-set_self, get_elem?-set_ne, ℕ, zero, suc, ◌<◌, bit_or, ◌≡◌, refl, sym, ap,
  ◌∙◌, subst, ◌≢◌, inl, inr, true, Option, none, some, List, [], ◌∷◌, arith, Bool-cases,
  Option-cases, length, get_elem?, set, All,
}
use mathlib.Core.Option.{some-injective}
use rosa.Arm64.Assembler.{Fixup}
use rosa.Arm64.Assembler.Finish.{sign_bit, in_range, field, resolve, resolve_all}
use rosa.Arm64.Assembler.Finish.Resolve.{
  field_of, jump_target, rest_of, resolved_word, resolved_rest,
}

-- The word of a fixup is there, and its field is still zero.
pub record IsFree (words : List ℕ) (fixup : Fixup) : Type 0 where
  pub word : ℕ
  pub stands : get_elem? words fixup.word_index ≡ some word
  pub free : field_of fixup.kind word ≡ 0

abbrev pub Elsewhere : ℕ → Fixup → Type 0
Elsewhere index fixup = fixup.word_index ≢ index

-- Every fixup has a word of its own.
abbrev pub Pending : List ℕ → List Fixup → Type 0
Pending words [] = Unit
Pending words (fixup ∷ fixups) =
    IsFree words fixup × All (Elsewhere fixup.word_index) fixups × Pending words fixups

-- The word of the fixup jumps to where its label is bound, and is otherwise as it was written.
pub record Jumps (positions : List (Option ℕ)) (written words : List ℕ) (fixup : Fixup)
    : Type 0 where
  pub word : ℕ
  pub old : ℕ
  pub target : ℕ
  pub stands : get_elem? words fixup.word_index ≡ some word
  pub stood : get_elem? written fixup.word_index ≡ some old
  pub bound : get_elem? positions fixup.label ≡ some (some target)
  pub reaches : jump_target fixup.kind fixup.word_index word ≡ target
  pub rest : rest_of fixup.kind word ≡ rest_of fixup.kind old

-- The label of the fixup is bound near enough.
pub record InReach (positions : List (Option ℕ)) (fixup : Fixup) : Type 0 where
  pub target : ℕ
  pub bound : get_elem? positions fixup.label ≡ some (some target)
  pub near : in_range (sign_bit fixup.kind) fixup.word_index target ≡ true

IsFree-set :
    (words : List ℕ) (index word : ℕ) (fixup : Fixup)
    → fixup.word_index ≢ index
    → IsFree words fixup
    → IsFree (set words index word) fixup
IsFree-set words index word fixup apart f = record {
  word = f.word;
  stands = get_elem?-set_ne words word (λ e. apart (sym e)) ∙ f.stands;
  free = f.free;
}

Pending-set :
    (words : List ℕ) (index word : ℕ) (fixups : List Fixup)
    → All (Elsewhere index) fixups
    → Pending words fixups
    → Pending (set words index word) fixups
Pending-set words index word [] apart p = tt
Pending-set words index word (fixup ∷ fixups) apart p = (
  IsFree-set words index word fixup apart.0 p.0,
  p.1,
  Pending-set words index word fixups apart.1 p.2,
)

pub some_index : (xs : List ℕ) (i x : ℕ) → get_elem? xs i ≡ some x → i < length xs
some_index [] i x e = absurd (cc)
some_index (y ∷ xs) zero x e = omega arith
some_index (y ∷ xs) (suc i) x e = omega (arith, some_index xs i x e)

module _ (positions : List (Option ℕ)) where
  -- What one round of the loop does.
  pub record Resolved (words : List ℕ) (fixup : Fixup) (resolved : List ℕ) : Type 0 where
    word : ℕ
    target : ℕ
    stands : get_elem? words fixup.word_index ≡ some word
    bound : get_elem? positions fixup.label ≡ some (some target)
    near : in_range (sign_bit fixup.kind) fixup.word_index target ≡ true
    result :
        resolved
        ≡ set words fixup.word_index (bit_or word (field fixup.kind fixup.word_index target))

  resolve-Resolved :
      (words : List ℕ) (fixup : Fixup) (resolved : List ℕ)
      → resolve positions words fixup ≡ some resolved
      → Resolved words fixup resolved
  unfolding resolve
  resolve-Resolved words fixup resolved h = elim (Option-cases (get_elem? positions fixup.label)) [
    | inl unknown ↦ absurd (ground arith)
    | inr (none, unbound) ↦ absurd (ground arith)
    | inr (some target, bound) ↦ elim (Option-cases (get_elem? words fixup.word_index)) [
      | inl missing ↦ absurd (ground arith)
      | inr (word, stands) ↦
          elim (Bool-cases (in_range (sign_bit fixup.kind) fixup.word_index target)) [
            | inl near ↦ record {
              word = word;
              target = target;
              stands = stands;
              bound = bound;
              near = near;
              result = sym (some-injective _ _ (rw (bound, stands, near, resolve) at h));
            }
            | inr far ↦ absurd (ground arith)
          ]
    ]
  ]

  -- One round with a label that is bound near enough.
  resolve-InReach :
      (words : List ℕ) (fixup : Fixup) (f : IsFree words fixup) (r : InReach positions fixup)
      → resolve positions words fixup
        ≡ some (
            set words fixup.word_index (bit_or f.word (field fixup.kind fixup.word_index r.target)))
  unfolding resolve
  resolve-InReach words fixup f r = rw (r.bound, f.stands, r.near, resolve) refl

  Resolved-Jumps :
      (words : List ℕ) (fixup : Fixup) (next resolved : List ℕ)
      → IsFree words fixup
      → Resolved words fixup next
      → get_elem? resolved fixup.word_index ≡ get_elem? next fixup.word_index
      → Jumps positions words resolved fixup
  Resolved-Jumps words fixup next resolved f r kept =
      let same : f.word ≡ r.word = some-injective _ _ (sym f.stands ∙ r.stands) in
      record {
        word = bit_or r.word (field fixup.kind fixup.word_index r.target);
        old = r.word;
        target = r.target;
        stood = r.stands;
        rest =
            resolved_rest fixup.kind r.word fixup.word_index r.target
              (ap (field_of fixup.kind) (sym same) ∙ f.free);
        stands =
            kept
            ∙ ap (λ (ws : List ℕ). get_elem? ws fixup.word_index) r.result
            ∙ get_elem?-set_self words _ _ (some_index words _ _ r.stands);
        bound = r.bound;
        reaches =
            resolved_word fixup.kind r.word fixup.word_index r.target
              (ap (field_of fixup.kind) (sym same) ∙ f.free) r.near;
      }

  -- A word that a later round does not change was written as before it.
  Jumps-set :
      (words resolved : List ℕ) (index word : ℕ) (fixups : List Fixup)
      → All (Elsewhere index) fixups
      → All (Jumps positions (set words index word) resolved) fixups
      → All (Jumps positions words resolved) fixups
  Jumps-set words resolved index word [] apart jumps = tt
  Jumps-set words resolved index word (fixup ∷ fixups) apart (j, jumps) = (
    record {
      word = j.word;
      old = j.old;
      target = j.target;
      stands = j.stands;
      stood = sym (get_elem?-set_ne words word (λ e. apart.0 (sym e))) ∙ j.stood;
      bound = j.bound;
      reaches = j.reaches;
      rest = j.rest;
    },
    Jumps-set words resolved index word fixups apart.1 jumps,
  )

  -- The loop makes every fixup's word jump to its label, and changes no other word.
  pub resolve_all-Jumps :
      (words : List ℕ) (fixups : List Fixup) (resolved : List ℕ)
      → Pending words fixups
      → resolve_all positions words fixups ≡ some resolved
      → All (Jumps positions words resolved) fixups
        × ((index : ℕ)
            → All (Elsewhere index) fixups
            → get_elem? resolved index ≡ get_elem? words index)
        × (length resolved ≡ length words)
  unfolding resolve_all
  resolve_all-Jumps words [] resolved p h =
      let same : words ≡ resolved = some-injective _ _ h in
      (tt, λ index apart. ap (λ (ws : List ℕ). get_elem? ws index) (sym same), ap length (sym same))
  resolve_all-Jumps words (fixup ∷ fixups) resolved p h =
      elim (Option-cases (resolve positions words fixup)) [
        | inl stuck ↦ absurd (ground arith)
        | inr (next, step) ↦
            let r : Resolved words fixup next = resolve-Resolved words fixup next step in
            let (jumps, kept, same) =
              resolve_all-Jumps next fixups resolved
                (subst (λ (ws : List ℕ). Pending ws fixups) (sym r.result)
                  (Pending-set words _ _ fixups p.1 p.2))
                (rw (step, resolve_all) at h) in
            (
              (
                Resolved-Jumps words fixup next resolved p.0 r (kept fixup.word_index p.1),
                Jumps-set words resolved _ _ fixups p.1 (
                    subst (λ (ws : List ℕ). All (Jumps positions ws resolved) fixups) r.result
                      jumps),
              ),
              λ index apart.
                  kept index apart.1
                  ∙ ap (λ (ws : List ℕ). get_elem? ws index) r.result
                  ∙ get_elem?-set_ne words _ apart.0,
              same ∙ ap length r.result ∙ length-set words _ _,
            )
      ]

  pub resolve_all-InReach :
      (words : List ℕ) (fixups : List Fixup)
      → Pending words fixups
      → All (InReach positions) fixups
      → (resolved : List ℕ) × (resolve_all positions words fixups ≡ some resolved)
  unfolding resolve_all
  resolve_all-InReach words [] p r = (words, refl)
  resolve_all-InReach words (fixup ∷ fixups) p r =
      let next : List ℕ =
        set words fixup.word_index
          (bit_or p.0.word (field fixup.kind fixup.word_index r.0.target)) in
      let (resolved, rest) =
        resolve_all-InReach next fixups (Pending-set words _ _ fixups p.1 p.2) r.1 in
      (resolved, rw (resolve-InReach words fixup p.0 r.0, resolve_all) rest)
