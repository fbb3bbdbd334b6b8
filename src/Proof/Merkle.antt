-- ===== src/Proof/Merkle.antt =====
-- `merkle_root` overwrites one array level by level: it computes the root of the tree over the leaves,
-- and the root binds them.
use deadflash.Base.{
  ℕ, zero, suc, ◌+◌, ◌-◌, ◌*◌, ◌/◌, ◌≤◌, ◌<◌, ◌^◌, ◌==◌, ◌||◌, ◌≡◌, inl, inr, refl, sym, ap, ◌∙◌,
  true, false, List, [], get_or, set, length, ltb, ltb→lt, ltb→le, lt→ltb, le→ltb, if◌then◌else◌,
  Bool-cases, arith, length-set, get_or-set_self, get_or-set_ne,
}
use deadflash.Common.{done, err_no_memory, failed≢done}
use deadflash.Common.Monad.{call, pure, throw, through, then_done, pure-done}
use deadflash.Device.Posix.{Os}
use deadflash.Device.Stdio.{Stdio}
use deadflash.Proof.{merkle_parent, merkle_level, merkle_loop, merkle_root, max_chunks, allocate}

-- The parent at `i` of `count` nodes; the last node is its own sibling where their number is odd.
unfoldable pub parents : ℕ → (ℕ → List ℕ) → ℕ → List ℕ
parents count node i =
    merkle_parent (node (i * 2)) (if ltb (i * 2 + 1) count then node (i * 2 + 1) else node (i * 2))

-- The root of a tree of at most `height` levels over `count` leaves.
unfoldable pub tree : ℕ → ℕ → (ℕ → List ℕ) → List ℕ
tree zero count node = node 0
tree (suc height) count node = elim (ltb 1 count) [
  | true ↦ tree height ((count + 1) / 2) (parents count node)
  | false ↦ node 0
]

-- The root over `count` leaves.
unfoldable pub root : ℕ → (ℕ → List ℕ) → List ℕ
unfolding tree parents
root count node = tree count count node

abbrev pub at : List (List ℕ) → ℕ → List ℕ
at level i = get_or level i []

module _ (count : ℕ) where
  merkle_level_before :
      (rounds i j : ℕ) (level : List (List ℕ))
      → j < i
      → at (merkle_level rounds i count level) j ≡ at level j
  unfolding merkle_level
  merkle_level_before zero i j level h = refl
  merkle_level_before (suc rounds) i j level h =
      merkle_level_before rounds (i + 1) j _ (omega arith)
      ∙ get_or-set_ne level i j _ [] (λ e. omega arith)

  length-merkle_level :
      (rounds i : ℕ) (level : List (List ℕ))
      → length (merkle_level rounds i count level) ≡ length level
  unfolding merkle_level
  length-merkle_level zero i level = refl
  length-merkle_level (suc rounds) i level =
      length-merkle_level rounds (i + 1) _ ∙ length-set level i _

  parents-set :
      (level : List (List ℕ)) (i j : ℕ) (v : List ℕ)
      → i < j
      → parents count (at (set level i v)) j ≡ parents count (at level) j
  unfolding parents
  parents-set level i j v h =
      rw
        (
          get_or-set_ne level i (j * 2) v [] (λ e. omega arith),
          get_or-set_ne level i (j * 2 + 1) v [] (λ e. omega arith),
        )
        refl

  -- Though the level is overwritten, each parent is that of the nodes before the loop.
  merkle_level-parents :
      (rounds i j : ℕ) (level : List (List ℕ))
      → i ≤ j
      → j < i + rounds
      → i + rounds ≤ length level
      → at (merkle_level rounds i count level) j ≡ parents count (at level) j
  unfolding merkle_level parents
  merkle_level-parents zero i j level low high fits = absurd (omega arith)
  merkle_level-parents (suc rounds) i j level low high fits = elim (Bool-cases (ltb i j)) [
    | inl p ↦
        let lt = ltb→lt i j p in
        merkle_level-parents rounds (i + 1) j _ (omega arith) (omega arith)
          (omega (arith, length-set level i (parents count (at level) i)))
        ∙ parents-set level i j _ lt
    | inr p ↦
        let e : i ≡ j = omega (arith, ltb→le i j p) in
        merkle_level_before rounds (i + 1) j _ (omega arith)
        ∙ rw e (get_or-set_self level j (parents count (at level) j) [] (omega arith))
  ]

parents-ext :
    (count : ℕ) (f g : ℕ → List ℕ)
    → ((j : ℕ) → j < count → f j ≡ g j)
    → (j : ℕ) → j < (count + 1) / 2
    → parents count f j ≡ parents count g j
unfolding parents
parents-ext count f g h j lt = elim (Bool-cases (ltb (j * 2 + 1) count)) [
  | inl p ↦ rw (p, h (j * 2) (omega arith), h (j * 2 + 1) (ltb→lt (j * 2 + 1) count p)) refl
  | inr p ↦ rw (p, h (j * 2) (omega arith)) refl
]

tree-ext :
    (height count : ℕ) (f g : ℕ → List ℕ)
    → 0 < count
    → ((j : ℕ) → j < count → f j ≡ g j)
    → tree height count f ≡ tree height count g
unfolding tree
tree-ext zero count f g some_leaf h = h 0 some_leaf
tree-ext (suc height) count f g some_leaf h = elim (Bool-cases (ltb 1 count)) [
  | inl p ↦
      rw (p, tree)
        (tree-ext height ((count + 1) / 2) (parents count f) (parents count g) (omega arith)
          (parents-ext count f g h))
  | inr p ↦ rw (p, tree) (h 0 some_leaf)
]

merkle_loop-tree :
    (fuel count : ℕ) (level : List (List ℕ))
    → 0 < count
    → count ≤ length level
    → at (merkle_loop fuel count level) 0 ≡ tree fuel count (at level)
unfolding merkle_loop tree
merkle_loop-tree zero count level some_leaf fits = refl
merkle_loop-tree (suc fuel) count level some_leaf fits = elim (Bool-cases (ltb 1 count)) [
  | inl p ↦
      let above = merkle_level ((count + 1) / 2) 0 count level in
      let more = ltb→lt 1 count p in
      rw (p, merkle_loop, tree)
        (merkle_loop-tree fuel ((count + 1) / 2) above (omega arith)
            (omega (arith, length-merkle_level count ((count + 1) / 2) 0 level))
          ∙ tree-ext fuel ((count + 1) / 2) (at above) (parents count (at level)) (omega arith)
              (λ j lt.
                merkle_level-parents count ((count + 1) / 2) 0 j level (omega arith) (omega arith)
                  (omega arith)))
  | inr p ↦ rw (p, merkle_loop, tree) refl
]

-- Two heights that are enough make no difference.
tree-height :
    (h k count : ℕ) (f : ℕ → List ℕ) → count ≤ h → count ≤ k → tree h count f ≡ tree k count f
unfolding tree
tree-height zero zero count f a b = refl
tree-height zero (suc k) count f a b =
    let e : ltb 1 count ≡ false = le→ltb 1 count (omega arith) in rw (e, tree) refl
tree-height (suc h) zero count f a b =
    let e : ltb 1 count ≡ false = le→ltb 1 count (omega arith) in rw (e, tree) refl
tree-height (suc h) (suc k) count f a b = elim (Bool-cases (ltb 1 count)) [
  | inl p ↦
      let more = ltb→lt 1 count p in
      rw (p, tree) (tree-height h k ((count + 1) / 2) (parents count f) (omega arith) (omega arith))
  | inr p ↦ rw (p, tree) refl
]

pub root-one : (f : ℕ → List ℕ) → root 1 f ≡ f 0
unfolding root
root-one f = refl

pub root-parents :
    (count : ℕ) (f : ℕ → List ℕ)
    → 1 < count
    → root count f ≡ root ((count + 1) / 2) (parents count f)
unfolding root
root-parents zero f h = absurd (omega arith)
root-parents (suc count) f h =
    let e = lt→ltb 1 (suc count) h in
    rw (e, tree)
      (tree-height count ((suc count + 1) / 2) ((suc count + 1) / 2) (parents (suc count) f)
        (omega arith) (omega arith))

-- The root that `merkle_root` computes over the leaves, in one array, is that of the tree: the only
-- leaf of one, else the root over the parents of neighbours, where a last node without a neighbour is
-- its own. It needs a leaf at least, and all leaves in the array.
pub merkle_root-root :
    (os : Os) (stdio : Stdio os) (leaves : List (List ℕ)) (count : ℕ) (digest : List ℕ)
    (w w' : os.World)
    → count ≤ length leaves
    → merkle_root os stdio leaves count w ≡ (done digest, w')
    → (digest ≡ root count (at leaves))
      × (0 < count)
      × (root 1 (at leaves) ≡ at leaves 0)
      × (1 < count → root count (at leaves) ≡ root ((count + 1) / 2) (parents count (at leaves)))
unfolding merkle_root root
merkle_root-root os stdio leaves count digest w w' fits e =
    elim (Bool-cases (count == 0 || ltb max_chunks count)) [
      | inl p ↦ absurd (failed≢done (ap (λ r. r.0) (rw (p, merkle_root) at e)))
      | inr p ↦ elim (Bool-cases (ltb ((2 ^ 64 - 1) / 32) count)) [
        | inl q ↦ absurd (failed≢done (ap (λ r. r.0) (rw (p, q, merkle_root) at e)))
        | inr q ↦
            through (allocate os stdio (count * 32)) _ (rw (p, q, merkle_root) at e) (λ u w1 e1 h1.
              let some_leaf : 0 < count = grind (arith, p) in
              (
                sym (pure-done h1).0 ∙ merkle_loop-tree count count leaves some_leaf fits,
                some_leaf,
                root-one (at leaves),
                root-parents count (at leaves),
              ))
      ]
    ]

-- With memory for the array, the root is computed of any number of leaves within the limit.
pub merkle_root_total :
    (os : Os) (stdio : Stdio os) (leaves : List (List ℕ)) (count : ℕ) (w : os.World)
    → ((n : ℕ) (v : os.World) → (stdio.malloc n v).0 ≡ true)
    → 0 < count
    → count ≤ max_chunks
    → count ≤ length leaves
    → (w' : os.World) × (merkle_root os stdio leaves count w ≡ (done (root count (at leaves)), w'))
unfolding merkle_root root
merkle_root_total os stdio leaves count w memory some_leaf few fits =
    let p : (count == 0 || ltb max_chunks count) ≡ false = grind arith in
    let q : ltb ((2 ^ 64 - 1) / 32) count ≡ false = grind arith in
    (
      (stdio.malloc (count * 32) w).1,
      rw (p, q, merkle_root)
          (then_done (allocate os stdio (count * 32)) _ (allocated (count * 32)) (
            ap (λ d. (done d, (stdio.malloc (count * 32) w).1))
              (merkle_loop-tree count count leaves some_leaf fits))),
    )
  where
    allocated : (n : ℕ) → allocate os stdio n w ≡ (done tt, (stdio.malloc n w).1)
    allocated n =
        then_done (call (stdio.malloc n)) (λ got. if got then pure tt else throw err_no_memory)
          {a = (stdio.malloc n w).0} refl
          (ap (λ got. (if got then pure tt else throw err_no_memory) (stdio.malloc n w).1)
            (memory n w))

pub merkle_root_positive :
    (os : Os) (stdio : Stdio os) (leaves : List (List ℕ)) (count : ℕ) (digest : List ℕ)
    (w w' : os.World)
    → merkle_root os stdio leaves count w ≡ (done digest, w')
    → 0 < count
unfolding merkle_root
merkle_root_positive os stdio leaves count digest w w' e =
    elim (Bool-cases (count == 0 || ltb max_chunks count)) [
      | inl p ↦ absurd (failed≢done (ap (λ r. r.0) (rw (p, merkle_root) at e)))
      | inr p ↦ grind (arith, p)
    ]
