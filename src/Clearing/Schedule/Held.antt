-- ===== src/Clearing/Schedule/Held.antt =====
-- The payments that the tasks hold, and how one turn may change them.
use offchain_service.Base.{
  ◌≡◌, subst, ◌⊎◌, inl, inr, refl, sym, false, Option, none, some, List, [], ◌∷◌, ◌++◌, any, All,
  arith,
}
use offchain_service.Clearing.Entities.{Payment}
use offchain_service.Clearing.Database.{conflicts}
use offchain_service.Clearing.Database.Laws.{conflicts_comm, IsUnique, IsUnique-append}
use offchain_service.Clearing.Process.{Phase, paid, confirming, finished}
use offchain_service.Clearing.Schedule.{Task}

module _ {F : Type 0} where
  -- The payment that a call holds.
  abbrev pub held_by : Phase F → Option (Payment F)
  held_by (paid p) = some p
  held_by (confirming p) = some p
  held_by (finished r) = r
  held_by _ = none

  abbrev pub held_in : Option (Phase F) → Option (Payment F)
  held_in none = none
  held_in (some p) = held_by p

  abbrev pub held : Task F → Option (Payment F)
  held k = held_in k.phase

  abbrev pub IsWaiting : Task F → Type 0
  IsWaiting k = k.phase ≡ none

  abbrev pub IsIn : List (Payment F) → Option (Payment F) → Type 0
  IsIn ps none = Unit
  IsIn [] (some p) = ⊥
  IsIn (q ∷ ps) (some p) = (p ≡ q) ⊎ IsIn ps (some p)

  pub IsIn-append :
      (ps rs : List (Payment F)) (h : Option (Payment F)) → IsIn ps h → IsIn (ps ++ rs) h
  IsIn-append ps rs none i = tt
  IsIn-append [] rs (some p) i = absurd i
  IsIn-append (q ∷ ps) rs (some p) (inl e) = inl e
  IsIn-append (q ∷ ps) rs (some p) (inr i) = inr (IsIn-append ps rs (some p) i)

  IsIn-last : (ps : List (Payment F)) (p : Payment F) → IsIn (ps ++ p ∷ []) (some p)
  IsIn-last [] p = inl refl
  IsIn-last (q ∷ ps) p = inr (IsIn-last ps p)

  -- Two payments that are held do not conflict.
  abbrev pub Apart : Option (Payment F) → Option (Payment F) → Type 0
  Apart none _ = Unit
  Apart (some p) none = Unit
  Apart (some p) (some q) = conflicts p q ≡ false

  Apart-new :
      (p : Payment F) (ps : List (Payment F)) (h : Option (Payment F))
      → any (conflicts p) ps ≡ false
      → IsIn ps h
      → Apart (some p) h
  Apart-new p ps none a i = tt
  Apart-new p [] (some q) a i = absurd i
  Apart-new p (r ∷ ps) (some q) a (inl e) = rw e (ground arith)
  Apart-new p (r ∷ ps) (some q) a (inr i) = Apart-new p ps (some q) (ground arith) i

  Apart-comm : (g h : Option (Payment F)) → Apart g h → Apart h g
  Apart-comm none none a = tt
  Apart-comm none (some q) a = tt
  Apart-comm (some p) none a = tt
  Apart-comm (some p) (some q) a = rw (conflicts_comm q p) a

  abbrev pub PairwiseApart : List (Option (Payment F)) → Type 0
  PairwiseApart [] = Unit
  PairwiseApart (h ∷ hs) = All (Apart h) hs × PairwiseApart hs

  -- What a turn changes: nothing of the payments, with a task that keeps its payment or lets go of
  -- it; or one new payment, which conflicts with none, for the task.
  abbrev pub Change :
      List (Payment F) → List (Payment F) → Option (Payment F) → Option (Payment F) → Type 0
  Change ps ps' h h' =
      ((ps' ≡ ps) × (h' ≡ h))
      ⊎ ((ps' ≡ ps) × (h' ≡ none))
      ⊎ ((p : Payment F) × (any (conflicts p) ps ≡ false) × (ps' ≡ ps ++ p ∷ []) × (h' ≡ some p))

  -- The change of one place in a list of tasks.
  abbrev pub ChangeAt :
      List (Payment F)
      → List (Payment F)
      → List (Option (Payment F))
      → List (Option (Payment F))
      → Type 0
  ChangeAt ps ps' [] hs' = (ps' ≡ ps) × (hs' ≡ [])
  ChangeAt ps ps' (h ∷ hs) [] = ⊥
  ChangeAt ps ps' (h ∷ hs) (h' ∷ hs') =
      (Change ps ps' h h' × (hs' ≡ hs)) ⊎ ((h' ≡ h) × ChangeAt ps ps' hs hs')

  -- Under a change elsewhere a payment that is stored stays stored, and apart from the others.
  others :
      (ps ps' : List (Payment F)) (g : Option (Payment F)) (hs hs' : List (Option (Payment F)))
      → ChangeAt ps ps' hs hs'
      → IsIn ps g
      → All (Apart g) hs
      → IsIn ps' g × All (Apart g) hs'
  others ps ps' g [] hs' (e, f) i a = (rw e i, rw f tt)
  others ps ps' g (h ∷ hs) [] c i a = absurd c
  others ps ps' g (h ∷ hs) (h' ∷ hs') (inr (e, c)) i a =
      let (j, b) = others ps ps' g hs hs' c i a.1 in (j, (rw e a.0, b))
  others ps ps' g (h ∷ hs) (h' ∷ hs') (inl (c, f)) i a = elim c [
    | inl (e, k) ↦ (rw e i, (rw k a.0, rw f a.1))
    | inr (inl (e, k)) ↦ (rw e i, (rw k (Apart-comm none g tt), rw f a.1))
    | inr (inr (p, b, e, k)) ↦ (
      rw e (IsIn-append ps (p ∷ []) g i),
      (rw k (Apart-comm (some p) g (Apart-new p ps g b i)), rw f a.1),
    )
  ]

  new-Apart :
      (p : Payment F) (ps : List (Payment F)) (hs : List (Option (Payment F)))
      → any (conflicts p) ps ≡ false
      → All (IsIn ps) hs
      → All (Apart (some p)) hs
  new-Apart p ps [] b i = tt
  new-Apart p ps (h ∷ hs) b i = (Apart-new p ps h b i.0, new-Apart p ps hs b i.1)

  pub All-Apart-none : (hs : List (Option (Payment F))) → All (Apart none) hs
  All-Apart-none [] = tt
  All-Apart-none (h ∷ hs) = (tt, All-Apart-none hs)

  All-stored :
      (ps rs : List (Payment F)) (hs : List (Option (Payment F)))
      → All (IsIn ps) hs
      → All (IsIn (ps ++ rs)) hs
  All-stored ps rs [] i = tt
  All-stored ps rs (h ∷ hs) i = (IsIn-append ps rs h i.0, All-stored ps rs hs i.1)

  pub ChangeAt-IsUnique :
      (ps ps' : List (Payment F)) (hs hs' : List (Option (Payment F)))
      → ChangeAt ps ps' hs hs'
      → IsUnique ps
      → IsUnique ps'
  ChangeAt-IsUnique ps ps' [] hs' (e, f) u = rw e u
  ChangeAt-IsUnique ps ps' (h ∷ hs) [] c u = absurd c
  ChangeAt-IsUnique ps ps' (h ∷ hs) (h' ∷ hs') (inr (e, c)) u = ChangeAt-IsUnique ps ps' hs hs' c u
  ChangeAt-IsUnique ps ps' (h ∷ hs) (h' ∷ hs') (inl (c, f)) u = elim c [
    | inl (e, k) ↦ rw e u
    | inr (inl (e, k)) ↦ rw e u
    | inr (inr (p, b, e, k)) ↦ rw e (IsUnique-append p ps u b)
  ]

  -- The facts about the payments that are held go over along equal lists.
  moved :
      {ps ps' : List (Payment F)} {hs hs' : List (Option (Payment F))}
      → ps' ≡ ps
      → hs' ≡ hs
      → All (IsIn ps) hs × PairwiseApart hs
      → All (IsIn ps') hs' × PairwiseApart hs'
  moved {ps} {ps'} {hs} {hs'} e f h =
      subst (λ qs. All (IsIn qs) hs' × PairwiseApart hs') (sym e)
        (subst (λ gs. All (IsIn ps) gs × PairwiseApart gs) (sym f) h)

  pub ChangeAt-held :
      (ps ps' : List (Payment F)) (hs hs' : List (Option (Payment F)))
      → ChangeAt ps ps' hs hs'
      → All (IsIn ps) hs
      → PairwiseApart hs
      → All (IsIn ps') hs' × PairwiseApart hs'
  ChangeAt-held ps ps' [] hs' (e, f) i a =
      moved {ps = ps} {ps' = ps'} {hs = []} {hs' = hs'} e f (tt, tt)
  ChangeAt-held ps ps' (h ∷ hs) [] c i a = absurd c
  ChangeAt-held ps ps' (h ∷ hs) (h' ∷ hs') (inr (e, c)) i a =
      let (j, b) = others ps ps' h hs hs' c i.0 a.0 in
      let (k, d) = ChangeAt-held ps ps' hs hs' c i.1 a.1 in
      moved {ps = ps'} {ps' = ps'} {hs = h ∷ hs'} {hs' = h' ∷ hs'} refl (rw e refl) ((j, k), (b, d))
  ChangeAt-held ps ps' (h ∷ hs) (h' ∷ hs') (inl (c, f)) i a = elim c [
    | inl (e, k) ↦
        moved {ps = ps} {ps' = ps'} {hs = h ∷ hs} {hs' = h' ∷ hs'} e (rw (k, f) refl) (i, a)
    | inr (inl (e, k)) ↦
        moved {ps = ps} {ps' = ps'} {hs = none ∷ hs} {hs' = h' ∷ hs'} e (rw (k, f) refl)
          ((tt, i.1), (All-Apart-none hs, a.1))
    | inr (inr (p, b, e, k)) ↦
        moved {ps = ps ++ p ∷ []} {ps' = ps'} {hs = some p ∷ hs} {hs' = h' ∷ hs'} e (rw (k, f) refl)
          ((IsIn-last ps p, All-stored ps (p ∷ []) hs i.1), (new-Apart p ps hs b i.1, a.1))
  ]
