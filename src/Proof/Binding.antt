-- ===== src/Proof/Binding.antt =====
-- A Merkle root binds its leaves.
use deadflash.Base.{
  ℕ, zero, suc, ◌+◌, ◌*◌, ◌/◌, ◌%◌, ◌≤◌, ◌<◌, ◌≡◌, ◌⊎◌, All, IsByte, inl, inr, refl, sym, ap, ◌∙◌,
  List, [], ◌∷◌, ◌++◌, length, take, drop, get_or, ltb, ltb→lt, ltb→le, lt→ltb, Bool-cases, arith,
  take-append, drop-append, if◌then◌else◌,
}
use deadflash.Common.{done}
use deadflash.Device.Posix.{Os}
use deadflash.Device.Stdio.{Stdio}
use deadflash.Proof.{merkle_parent, merkle_root}
use deadflash.Proof.Merkle.{parents, tree, root, at, merkle_root-root}
use deadflash.Sha256.Collision.{IsCollision, equal_or_IsCollision, everywhere_or_somewhere}
use deadflash.Pipeline.Checked.{sha256_buffer-IsDigest}

merkle_parent_binds :
    (a b c d : List ℕ)
    → length a ≡ length c
    → merkle_parent a b ≡ merkle_parent c d
    → ((a ≡ c) × (b ≡ d)) ⊎ IsCollision (0x01 ∷ a ++ b) (0x01 ∷ c ++ d)
unfolding merkle_parent
merkle_parent_binds a b c d len e = go (equal_or_IsCollision (0x01 ∷ a ++ b) (0x01 ∷ c ++ d) e)
  where
    go :
        (0x01 ∷ a ++ b ≡ 0x01 ∷ c ++ d) ⊎ IsCollision (0x01 ∷ a ++ b) (0x01 ∷ c ++ d)
        → ((a ≡ c) × (b ≡ d)) ⊎ IsCollision (0x01 ∷ a ++ b) (0x01 ∷ c ++ d)
    go (inr x) = inr x
    go (inl same) =
        let tails = ap (drop 1) same in
        inl (
          (
            sym (take-append a b (length a) refl)
                ∙ ap (take (length a)) tails
                ∙ take-append c d (length a) len,
            sym (drop-append a b (length a) refl)
                ∙ ap (drop (length a)) tails
                ∙ drop-append c d (length a) len,
          ))

-- Each of the nodes is a digest.
abbrev pub AreDigests : ℕ → (ℕ → List ℕ) → Type 0
AreDigests count f = (j : ℕ) → j < count → length (f j) ≡ 32

parents-AreDigests : (count n : ℕ) (f : ℕ → List ℕ) → AreDigests n (parents count f)
unfolding parents merkle_parent
parents-AreDigests count n f j h = (sha256_buffer-IsDigest _).0

-- What is hashed for the parent at a place.
abbrev pub hashed : ℕ → (ℕ → List ℕ) → ℕ → List ℕ
hashed count node i =
    0x01 ∷ node (i * 2) ++ (if ltb (i * 2 + 1) count then node (i * 2 + 1) else node (i * 2))

-- Somewhere above the leaves of two trees of one shape, the messages that are hashed at one place
-- differ and have one hash.
abbrev pub Collides : ℕ → ℕ → (ℕ → List ℕ) → (ℕ → List ℕ) → Type 0
Collides zero count f g = ⊥
Collides (suc height) count f g =
    (1 < count)
    × (((i : ℕ) × (i < (count + 1) / 2) × IsCollision (hashed count f i) (hashed count g i))
        ⊎ Collides height ((count + 1) / 2) (parents count f) (parents count g))

-- Equal parents have equal children, the second of which may be missing.
parents_bind :
    (count : ℕ) (f g : ℕ → List ℕ)
    → AreDigests count f
    → AreDigests count g
    → (i : ℕ) → i < (count + 1) / 2
    → parents count f i ≡ parents count g i
    → ((f (i * 2) ≡ g (i * 2)) × (i * 2 + 1 < count → f (i * 2 + 1) ≡ g (i * 2 + 1)))
      ⊎ IsCollision (hashed count f i) (hashed count g i)
unfolding parents
parents_bind count f g df dg i h e = sides (
    merkle_parent_binds (f (i * 2)) (right f) (g (i * 2)) (right g)
      (df (i * 2) (omega arith) ∙ sym (dg (i * 2) (omega arith))) e)
  where
    right : (ℕ → List ℕ) → List ℕ
    right node = if ltb (i * 2 + 1) count then node (i * 2 + 1) else node (i * 2)

    second : right f ≡ right g → i * 2 + 1 < count → f (i * 2 + 1) ≡ g (i * 2 + 1)
    second y q = rw (lt→ltb (i * 2 + 1) count q) at y

    sides :
        ((f (i * 2) ≡ g (i * 2)) × (right f ≡ right g))
          ⊎ IsCollision (hashed count f i) (hashed count g i)
        → ((f (i * 2) ≡ g (i * 2)) × (i * 2 + 1 < count → f (i * 2 + 1) ≡ g (i * 2 + 1)))
          ⊎ IsCollision (hashed count f i) (hashed count g i)
    sides (inl (x, y)) = inl (x, second y)
    sides (inr c) = inr c

-- Every node is a left or a right child.
children :
    (count : ℕ) (f g : ℕ → List ℕ)
    → ((i : ℕ)
        → i < (count + 1) / 2
        → (f (i * 2) ≡ g (i * 2)) × (i * 2 + 1 < count → f (i * 2 + 1) ≡ g (i * 2 + 1)))
    → (j : ℕ) → j < count
    → f j ≡ g j
children count f g h j lt = elim (Bool-cases (ltb 0 (j % 2))) [
  | inl p ↦
      let odd = ltb→lt 0 (j % 2) p in
      let e : j ≡ j / 2 * 2 + 1 = omega arith in
      ap f e ∙ (h (j / 2) (omega arith)).1 (omega arith) ∙ sym (ap g e)
  | inr p ↦
      let even = ltb→le 0 (j % 2) p in
      let e : j ≡ j / 2 * 2 = omega arith in ap f e ∙ (h (j / 2) (omega arith)).0 ∙ sym (ap g e)
]

tree_binds :
    (height count : ℕ) (f g : ℕ → List ℕ)
    → count ≤ height
    → AreDigests count f
    → AreDigests count g
    → tree height count f ≡ tree height count g
    → ((j : ℕ) → j < count → f j ≡ g j) ⊎ Collides height count f g
unfolding tree
tree_binds zero count f g enough df dg e = inl (λ j lt. absurd (omega arith))
tree_binds (suc height) count f g enough df dg e = elim (Bool-cases (ltb 1 count)) [
  | inl p ↦
      let more = ltb→lt 1 count p in
      below more (
        tree_binds height ((count + 1) / 2) (parents count f) (parents count g) (omega arith)
          (parents-AreDigests count _ f) (parents-AreDigests count _ g) (rw (p, tree) at e))
  | inr p ↦
      let few = ltb→le 1 count p in
      let same = rw (p, tree) at e in inl (λ j lt. let z : j ≡ 0 = omega arith in rw z same)
]
  where
    Here : ℕ → Type 0
    Here i = IsCollision (hashed count f i) (hashed count g i)

    gather :
        1 < count
        → ((i : ℕ)
            → i < (count + 1) / 2
            → (f (i * 2) ≡ g (i * 2)) × (i * 2 + 1 < count → f (i * 2 + 1) ≡ g (i * 2 + 1)))
          ⊎ ((i : ℕ) × (i < (count + 1) / 2) × Here i)
        → ((j : ℕ) → j < count → f j ≡ g j) ⊎ Collides (suc height) count f g
    gather more (inl all) = inl (children count f g all)
    gather more (inr c) = inr (more, inl c)

    below :
        1 < count
        → ((i : ℕ) → i < (count + 1) / 2 → parents count f i ≡ parents count g i)
          ⊎ Collides height ((count + 1) / 2) (parents count f) (parents count g)
        → ((j : ℕ) → j < count → f j ≡ g j) ⊎ Collides (suc height) count f g
    below more (inl all) = gather more (
        everywhere_or_somewhere ((count + 1) / 2) _ Here
          (λ i lt. parents_bind count f g df dg i lt (all i lt)))
    below more (inr c) = inr (more, inr c)

tree-IsDigest :
    (height count : ℕ) (f : ℕ → List ℕ)
    → 0 < count
    → ((j : ℕ) → j < count → (length (f j) ≡ 32) × All IsByte (f j))
    → (length (tree height count f) ≡ 32) × All IsByte (tree height count f)
unfolding tree parents merkle_parent
tree-IsDigest zero count f some_leaf h = h 0 some_leaf
tree-IsDigest (suc height) count f some_leaf h = elim (Bool-cases (ltb 1 count)) [
  | inl p ↦
      rw (p, tree)
        (tree-IsDigest height ((count + 1) / 2) (parents count f) (omega (arith, ltb→lt 1 count p))
          (λ j lt. sha256_buffer-IsDigest _))
  | inr p ↦ rw (p, tree) (h 0 some_leaf)
]

pub root-IsDigest :
    (count : ℕ) (f : ℕ → List ℕ)
    → 0 < count
    → ((j : ℕ) → j < count → (length (f j) ≡ 32) × All IsByte (f j))
    → (length (root count f) ≡ 32) × All IsByte (root count f)
unfolding root
root-IsDigest count f some_leaf h = tree-IsDigest count count f some_leaf h

-- Two lists of as many digests with one Merkle root are equal at each place, or their trees collide.
pub root_binds :
    (count : ℕ) (f g : ℕ → List ℕ)
    → AreDigests count f
    → AreDigests count g
    → root count f ≡ root count g
    → ((j : ℕ) → j < count → f j ≡ g j) ⊎ Collides count count f g
unfolding root
root_binds count f g df dg e = tree_binds count count f g (omega arith) df dg e

-- Two runs of `merkle_root` over as many leaves of 32 bytes, all of them in their arrays, that give
-- one root had the same leaves, or at one place of the two trees above the leaves two messages were
-- hashed that differ and have one SHA-256.
pub merkle_root_binds :
    (os : Os) (stdio : Stdio os) (count : ℕ) (left right : List (List ℕ)) (root_digest : List ℕ)
    (w w' v v' : os.World)
    → count ≤ length left
    → count ≤ length right
    → AreDigests count (at left)
    → AreDigests count (at right)
    → merkle_root os stdio left count w ≡ (done root_digest, w')
    → merkle_root os stdio right count v ≡ (done root_digest, v')
    → ((j : ℕ) → j < count → get_or left j [] ≡ get_or right j [])
      ⊎ Collides count count (at left) (at right)
merkle_root_binds os stdio count left right root_digest w w' v v' fits fits' d d' e e' =
    let (a, p, one, more) = merkle_root-root os stdio left count root_digest w w' fits e in
    let (b, p', one', more') = merkle_root-root os stdio right count root_digest v v' fits' e' in
    root_binds count (at left) (at right) d d' (sym a ∙ b)
