-- ===== src/Model/Graph/Tarjan/State.antt =====
-- What holds of the state of `SCCs` between two calls of `strongConnect`, and what one call does to it.
use lifeline.Prelude.{ℕ, ◌+◌, ◌≤◌, ◌<◌, ◌≡◌, refl, ap, ◌↔◌, ◌⊎◌, inl, inr, arith}
use lifeline.Prelude.{Bool, true, false, Option, none, some, List, [], ◌∷◌, ◌++◌, length, unseen}
use lifeline.Prelude.{Option-cases}
use lifeline.Model.Graph.{BlockId, Cfg}
use lifeline.Model.Graph.WellFormed.{succs, LeadsTo, count}
use lifeline.Model.Graph.Routes.{Flow, here, along, LeadsTo-Enters}
use lifeline.Model.Graph.Tarjan.{Tarjan}

-- How often a block stands in the components of a list.
unfoldable pub total : BlockId → List (List BlockId) → ℕ
total v [] = 0
total v (c ∷ cs) = count v c + total v cs

pub count-append :
    (v : BlockId) (xs ys : List BlockId) → count v (xs ++ ys) ≡ count v xs + count v ys
unfolding count
count-append v [] ys = omega arith
count-append v (x ∷ xs) ys = omega (arith, count-append v xs ys)

pub total-append :
    (v : BlockId) (cs ds : List (List BlockId)) → total v (cs ++ ds) ≡ total v cs + total v ds
unfolding total
total-append v [] ds = omega arith
total-append v (c ∷ cs) ds = omega (arith, total-append v cs ds)

abbrev pub is_some : Option ℕ → Bool
is_some none = false
is_some (some i) = true

abbrev pub held : Option ℕ → ℕ
held none = 0
held (some i) = 1

-- Some edge leads from `u` to `v`.
abbrev pub Arc : Cfg → BlockId → BlockId → Type 0
Arc g u v = LeadsTo v (succs g.blocks u)

pub Flow-snoc : (g : Cfg) {u v w : BlockId} → Flow g u v → Arc g v w → Flow g u w
Flow-snoc g {u} {v} {w} r a = along r ((LeadsTo-Enters (succs g.blocks v) w).0 a)

pub Flow-arc : (g : Cfg) {u v : BlockId} → Arc g u v → Flow g u v
Flow-arc g a = Flow-snoc g here a

-- A strongly connected component: the blocks that a root reaches and that reach it.
abbrev pub IsComponent : Cfg → List BlockId → Type 0
IsComponent g c =
    (r : BlockId) × (0 < count r c)
    × ((w : BlockId) → 0 < count w c → Flow g r w × Flow g w r)
    × ((w : BlockId) → Flow g r w → Flow g w r → 0 < count w c)

abbrev pub AreComponents : Cfg → List (List BlockId) → Type 0
AreComponents g [] = Unit
AreComponents g (c ∷ cs) = IsComponent g c × AreComponents g cs

pub AreComponents-append :
    (g : Cfg) (cs ds : List (List BlockId))
    → AreComponents g cs
    → AreComponents g ds
    → AreComponents g (cs ++ ds)
AreComponents-append g [] ds h k = k
AreComponents-append g (c ∷ cs) ds (i, h) k = (i, AreComponents-append g cs ds h k)

-- The blocks without an index.
abbrev pub whites : ℕ → Tarjan → ℕ
whites n t = unseen n (λ v. is_some (t.index v))

module _ (g : Cfg) where
  pub record Inv (t : Tarjan) : Type 0 where
    -- a block with an index is in a component or on the stack, once
    pub placed : (v : BlockId) → total v t.result + count v t.stack ≡ held (t.index v)
    pub flags : (v : BlockId) → (t.on_stack v ≡ true) ↔ (0 < count v t.stack)
    pub below : (v : BlockId) (i : ℕ) → t.index v ≡ some i → (v < length g.blocks) × (i < t.counter)
    pub closed : (u v : BlockId) → 0 < total u t.result → Arc g u v → 0 < total v t.result
    pub components : AreComponents g t.result

  pub indexed_of_stack :
      (t : Tarjan) → Inv t → (v : BlockId) → 0 < count v t.stack → (i : ℕ) × (t.index v ≡ some i)
  indexed_of_stack t inv v h = elim (Option-cases (t.index v)) [
    | inl e ↦ absurd (omega (arith, h, inv.placed v, ap held e))
    | inr (i, e) ↦ (i, e)
  ]

  pub Flow-closed :
      (t : Tarjan)
      → Inv t
      → {u v : BlockId} → Flow g u v
      → 0 < total u t.result
      → 0 < total v t.result
  Flow-closed t inv here h = h
  Flow-closed t inv (along {u} {v} r a) h =
      inv.closed u v (Flow-closed t inv r h) ((LeadsTo-Enters (succs g.blocks u) v).1 a)

  -- A call for `v` in the state `t0` has led to the state `t`, in which the blocks of `seg` lie on the stack above
  -- `base`.
  pub record Grown (v : BlockId) (base : List BlockId) (t0 t : Tarjan) (seg : List BlockId)
      : Type 0 where
    pub inv : Inv t
    pub keep : (u : BlockId) (i : ℕ) → t0.index u ≡ some i → t.index u ≡ some i
    pub low_keep : (u : BlockId) (i : ℕ) → t0.index u ≡ some i → t.low u ≡ t0.low u
    pub own : t.index v ≡ some t0.counter
    pub stack : t.stack ≡ seg ++ base
    pub later : t0.counter < t.counter
    pub fewer : whites (length g.blocks) t < whites (length g.blocks) t0
    pub fresh : (y : BlockId) (i : ℕ) → 0 < count y seg → t.index y ≡ some i → t0.counter ≤ i
    pub explored : (y z : BlockId) → 0 < count y seg → Arc g y z → (i : ℕ) × (t.index z ≡ some i)
    pub down : (y : BlockId) → 0 < count y seg → Flow g v y
    pub up : (y : BlockId) → 0 < count y seg → (x : BlockId) × (0 < count x base) × Flow g y x

  -- What `low` means for `v` when the blocks of `seg` are done: it is the index of a block that `v` reaches, and no
  -- edge leads from them to a block further down the stack with a smaller one.
  pub record IsLow (v : BlockId) (t0 : Tarjan) (seg : List BlockId) (k : ℕ) : Type 0 where
    pub at_most : k ≤ t0.counter
    pub of :
        k < t0.counter → (x : BlockId) × (0 < count x t0.stack) × (t0.index x ≡ some k) × Flow g v x
    pub bound :
        (y z : BlockId) (i : ℕ)
        → 0 < count y seg
        → Arc g y z
        → 0 < count z t0.stack
        → t0.index z ≡ some i
        → k ≤ i

  -- The result of a whole call.
  abbrev pub Connected : BlockId → Tarjan → Tarjan → Type 0
  Connected v t0 t = (seg : List BlockId) × Grown v t0.stack t0 t seg × IsLow v t0 seg (t.low v)

pub count-append_cases :
    (y : BlockId) (xs ys : List BlockId)
    → 0 < count y (xs ++ ys)
    → (0 < count y xs) ⊎ (0 < count y ys)
count-append_cases y xs ys h = grind (arith, count-append y xs ys)

pub count-append_left :
    (y : BlockId) (xs ys : List BlockId) → 0 < count y xs → 0 < count y (xs ++ ys)
count-append_left y xs ys h = omega (arith, count-append y xs ys, h)

pub count-append_right :
    (y : BlockId) (xs ys : List BlockId) → 0 < count y ys → 0 < count y (xs ++ ys)
count-append_right y xs ys h = omega (arith, count-append y xs ys, h)

pub append_assoc : {A : Type 0} (xs ys zs : List A) → (xs ++ ys) ++ zs ≡ xs ++ (ys ++ zs)
append_assoc [] ys zs = refl
append_assoc (x ∷ xs) ys zs = ap (◌∷◌ x) (append_assoc xs ys zs)
