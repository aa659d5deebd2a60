-- ===== src/WildcardTree/Removal.antt =====
-- WildcardTreeNode::remove as removal from the set of the names.
use baiakthunder.Base.{
  ℕ, ◌≡◌, refl, Bool, true, false, ◌&&◌, not, Option, none, some, List, [], ◌∷◌, arith, ◌==◌,
  if◌then◌else◌,
}
use baiakthunder.WildcardTree.{
  Node, Children, node, leaf, child, get_child, prune, remove_path, remove,
}
use baiakthunder.WildcardTree.Words.{
  has, has_in, same_name, has-cons, get-put, get-erase, get-IsTidy, put-IsTidy, erase-IsTidy,
  IsTidy, AreTidy,
}

has-unused : (w : List ℕ) → has w (node false leaf) ≡ false
unfolding has get_child
has-unused [] = refl
has-unused (c ∷ w) = refl

-- A pruned node goes only where there was nothing in it.
has-prune :
    (c d : ℕ) (w : List ℕ) (m : Node) (cs : Children)
    → AreTidy cs
    → has_in w (get_child d (prune c m cs))
      ≡ (if c == d then has w m else has_in w (get_child d cs))
unfolding prune
has-prune c d w (node true ds) cs t = ground (arith, get-put c d (node true ds) cs)
has-prune c d w (node false leaf) cs t = ground (arith, get-erase c d cs t, has-unused w)
has-prune c d w (node false (child e n es)) cs t =
    ground (arith, get-put c d (node false (child e n es)) cs)

prune-IsTidy : (c : ℕ) (m : Node) (cs : Children) → IsTidy m → AreTidy cs → AreTidy (prune c m cs)
unfolding prune
prune-IsTidy c (node true leaf) cs s t = put-IsTidy c (node true leaf) cs refl s t
prune-IsTidy c (node true (child e n es)) cs s t =
    put-IsTidy c (node true (child e n es)) cs refl s t
prune-IsTidy c (node false leaf) cs s t = erase-IsTidy c cs t
prune-IsTidy c (node false (child e n es)) cs s t =
    put-IsTidy c (node false (child e n es)) cs refl s t

-- What a removal down a path does: nothing if the path is missing, and one name less if not.
abbrev Removed : List ℕ → List ℕ → Node → Option Node → Type 0
Removed v w n none = same_name v w ≡ true → has w n ≡ false
Removed v w n (some m) = IsTidy m × (has w m ≡ (not (same_name v w) && has w n))

has-root : (b : Bool) (cs ds : Children) → has [] (node b cs) ≡ (true && has [] (node b ds))
unfolding has
has-root b cs ds = refl

remove_below :
    (c d : ℕ) (v w : List ℕ) (b : Bool) (cs : Children) (n m : Node)
    → get_child c cs ≡ some n
    → has w m ≡ (not (same_name v w) && has w n)
    → AreTidy cs
    → has (d ∷ w) (node b (prune c m cs))
      ≡ (not (same_name (c ∷ v) (d ∷ w)) && has (d ∷ w) (node b cs))
remove_below c d v w b cs n m g h t =
    ground (arith, has-cons d w b (prune c m cs), has-prune c d w m cs t, has-cons d w b cs)

missing_child :
    (c : ℕ) (v w : List ℕ) (b : Bool) (cs : Children)
    → get_child c cs ≡ none
    → Removed (c ∷ v) w (node b cs) none
missing_child c v [] b cs h = λ q. cc
missing_child c v (d ∷ w) b cs h = λ q. ground (arith, has-cons d w b cs)

both_left : (a b : Bool) → (a && b) ≡ true → a ≡ true
both_left a b e = ground arith

both_right : (a b : Bool) → (a && b) ≡ true → b ≡ true
both_right a b e = ground arith

Removed-step :
    (c : ℕ) (v w : List ℕ) (b : Bool) (cs : Children) (n : Node) (o : Option Node)
    → get_child c cs ≡ some n
    → AreTidy cs
    → IsTidy n
    → ((u : List ℕ) → Removed v u n o)
    → Removed (c ∷ v) w (node b cs) (elim o [ none ↦ none | some m ↦ some (node b (prune c m cs)) ])
Removed-step c v [] b cs n none h t s r = λ q. cc
Removed-step c v (d ∷ w) b cs n none h t s r = λ q. ground (
  arith,
  has-cons d w b cs,
  r w (both_right (c == d) (same_name v w) q),
  both_left (c == d) (same_name v w) q,
)
Removed-step c v [] b cs n (some m) h t s r =
    (prune-IsTidy c m cs (r []).0 t, has-root b (prune c m cs) cs)
Removed-step c v (d ∷ w) b cs n (some m) h t s r =
    (prune-IsTidy c m cs (r w).0 t, remove_below c d v w b cs n m h (r w).1 t)

Removed-from :
    (c : ℕ) (v w : List ℕ) (b : Bool) (cs : Children) (o : Option Node)
    → ((u : List ℕ) (n : Node) → IsTidy n → Removed v u n (remove_path v n))
    → AreTidy cs
    → get_child c cs ≡ o
    → Removed (c ∷ v) w (node b cs) (elim o [
      | none ↦ none
      | some n ↦ elim (remove_path v n) [ none ↦ none | some m ↦ some (node b (prune c m cs)) ]
    ])
Removed-from c v w b cs none f t h = missing_child c v w b cs h
Removed-from c v w b cs (some n) f t h =
    let s = (get-IsTidy c cs n t h).1 in
    Removed-step c v w b cs n (remove_path v n) h t s (λ u. f u n s)

removed : (v w : List ℕ) (n : Node) → IsTidy n → Removed v w n (remove_path v n)
unfolding remove_path has
removed [] [] (node b cs) t = (t, refl)
removed [] (d ∷ w) (node b cs) t = (t, refl)
removed (c ∷ v) w (node b cs) t = Removed-from c v w b cs (get_child c cs) (removed v) t refl

remove_case :
    (v w : List ℕ) (n : Node) (o : Option Node)
    → IsTidy n
    → Removed v w n o
    → IsTidy (elim o [ none ↦ n | some m ↦ m ])
      × (has w (elim o [ none ↦ n | some m ↦ m ]) ≡ (not (same_name v w) && has w n))
remove_case v w n none t r = (t, ground arith)
remove_case v w n (some m) t r = r

-- In a tidy tree a removal takes out the given name, if it is there, and no other, and the tree
-- stays tidy.
pub has-remove :
    (v w : List ℕ) (n : Node)
    → IsTidy n
    → IsTidy (remove v n) × (has w (remove v n) ≡ (not (same_name v w) && has w n))
unfolding remove
has-remove v w n t = remove_case v w n (remove_path v n) t (removed v w n t)
