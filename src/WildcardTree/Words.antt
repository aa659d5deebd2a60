-- ===== src/WildcardTree/Words.antt =====
-- The tree of wildcardtree.cpp as the set of the names in it.
use baiakthunder.Base.{
  ℕ, ◌≤◌, ◌<◌, ◌≡◌, ◌≢◌, refl, subst, Bool, true, false, ◌&&◌, ◌||◌, not, Option, none, some, List,
  [], ◌∷◌, arith, ltb, ◌==◌, if◌then◌else◌, Bool-cases, Option-cases, inl, inr,
}
use baiakthunder.WildcardTree.{
  Node, Children, node, leaf, child, get_child, put_child, erase_child, is_leaf, or_fresh, mark,
  add_child, insert,
}

-- Is this name in the tree?
unfoldable pub has : List ℕ → Node → Bool
has [] (node b cs) = b
has (c ∷ w) (node b cs) = elim (get_child c cs) [ none ↦ false | some n ↦ has w n ]

abbrev pub same_name : List ℕ → List ℕ → Bool
same_name [] [] = true
same_name [] (d ∷ w) = false
same_name (c ∷ v) [] = false
same_name (c ∷ v) (d ∷ w) = c == d && same_name v w

abbrev pub has_in : List ℕ → Option Node → Bool
has_in w none = false
has_in w (some n) = has w n

pub has-cons :
    (c : ℕ) (w : List ℕ) (b : Bool) (cs : Children)
    → has (c ∷ w) (node b cs) ≡ has_in w (get_child c cs)
unfolding has
has-cons c w b cs = ground arith

pub get-put :
    (c d : ℕ) (n : Node) (cs : Children)
    → get_child d (put_child c n cs) ≡ (if c == d then some n else get_child d cs)
unfolding get_child put_child
get-put c d n leaf = refl
get-put c d n (child e m cs) = ground (arith, get-put c d n cs)

-- Keys above a bound, so that a key stands once.
abbrev pub Above : ℕ → Children → Type 0
Above c leaf = Unit {0}
Above c (child d n cs) = (c < d) × Above c cs

get-Above : (c d : ℕ) (cs : Children) → Above c cs → d ≤ c → get_child d cs ≡ none
unfolding get_child
get-Above c d leaf a h = refl
get-Above c d (child e n cs) a h = ground (arith, get-Above c d cs a.1)

-- A node that is worth keeping: it ends a name, or leads on.
abbrev pub IsUsed : Node → Type 0
IsUsed (node b cs) = (not (is_leaf cs) || b) ≡ true

-- The keys of every node are in order, and every node below the root is used.
abbrev mutual
  pub IsTidy : Node → Type 0
  IsTidy (node b cs) = AreTidy cs

  pub AreTidy : Children → Type 0
  AreTidy leaf = Unit {0}
  AreTidy (child c n cs) = IsUsed n × IsTidy n × Above c cs × AreTidy cs

pub get-erase :
    (c d : ℕ) (cs : Children)
    → AreTidy cs
    → get_child d (erase_child c cs) ≡ (if c == d then none else get_child d cs)
unfolding get_child erase_child
get-erase c d leaf t = ground arith
get-erase c d (child e m cs) (u, t, a, ts) = ground (arith, get-erase c d cs ts, get-Above e d cs a)

pub get-IsTidy :
    (c : ℕ) (cs : Children) (n : Node) → AreTidy cs → get_child c cs ≡ some n → IsUsed n × IsTidy n
unfolding get_child
get-IsTidy c leaf n t e = cc
get-IsTidy c (child d m cs) n (u, t, a, ts) e = elim (Bool-cases (d == c)) [
  | inl h ↦ subst (λ k. IsUsed k × IsTidy k) (ground arith) (u, t)
  | inr h ↦ get-IsTidy c cs n ts (ground arith)
]

Above-put : (b c : ℕ) (n : Node) (cs : Children) → Above b cs → b < c → Above b (put_child c n cs)
unfolding put_child
Above-put b c n leaf a h = (h, tt)
Above-put b c n (child d m cs) a h = ground (arith, Above-put b c n cs a.1)

Above-weaken : (b c : ℕ) (cs : Children) → b < c → Above c cs → Above b cs
Above-weaken b c leaf h a = tt
Above-weaken b c (child d m cs) h a = (omega arith, Above-weaken b c cs h a.1)

Above-erase : (b c : ℕ) (cs : Children) → Above b cs → Above b (erase_child c cs)
unfolding erase_child
Above-erase b c leaf a = tt
Above-erase b c (child d m cs) a = ground (arith, Above-erase b c cs a.1)

pub put-IsTidy :
    (c : ℕ) (n : Node) (cs : Children)
    → IsUsed n
    → IsTidy n
    → AreTidy cs
    → AreTidy (put_child c n cs)
unfolding put_child
put-IsTidy c n leaf u t ts = (u, t, tt, tt)
put-IsTidy c n (child d m cs) u t (v, s, a, ss) = elim (Bool-cases (d == c)) [
  | inl h ↦ rw h (u, t, subst (λ k. Above k cs) (ground arith) a, ss)
  | inr h ↦ rw h (elim (Bool-cases (ltb c d)) [
    | inl k ↦ rw k (u, t, (ground arith, Above-weaken c d cs (ground arith) a), (v, s, a, ss))
    | inr k ↦ rw k (v, s, Above-put d c n cs a (ground arith), put-IsTidy c n cs u t ss)
  ])
]

pub erase-IsTidy : (c : ℕ) (cs : Children) → AreTidy cs → AreTidy (erase_child c cs)
unfolding erase_child
erase-IsTidy c leaf t = tt
erase-IsTidy c (child d m cs) (v, s, a, ss) = elim (Bool-cases (d == c)) [
  | inl h ↦ rw h ss
  | inr h ↦ rw h (v, s, Above-erase d c cs a, erase-IsTidy c cs ss)
]

-- The children after a step down are tidy.
fresh-IsTidy : (c : ℕ) (cs : Children) → AreTidy cs → IsTidy (or_fresh (get_child c cs))
fresh-IsTidy c cs t = elim (Option-cases (get_child c cs)) [
  | inl h ↦ rw h tt
  | inr (n, h) ↦ rw h (get-IsTidy c cs n t h).1
]

mark-IsTidy : (b : Bool) (n : Node) → IsTidy n → IsTidy (mark b n)
mark-IsTidy true (node a cs) t = t
mark-IsTidy false n t = t

mark-IsUsed : (n : Node) → IsUsed (mark true n)
mark-IsUsed (node a cs) = ground arith

put_is_leaf : (c : ℕ) (n : Node) (cs : Children) → is_leaf (put_child c n cs) ≡ false
unfolding put_child
put_is_leaf c n leaf = refl
put_is_leaf c n (child d m cs) = ground arith

insert-IsUsed : (c : ℕ) (v : List ℕ) (n : Node) → IsUsed (insert (c ∷ v) n)
unfolding insert
insert-IsUsed c [] (node b cs) = rw (put_is_leaf c (add_child c true cs) cs) refl
insert-IsUsed c (d ∷ v) (node b cs) =
    rw (put_is_leaf c (insert (d ∷ v) (add_child c false cs)) cs) refl

insert-IsTidy : (v : List ℕ) (n : Node) → IsTidy n → IsTidy (insert v n)
unfolding insert add_child
insert-IsTidy [] n t = t
insert-IsTidy (c ∷ []) (node b cs) t =
    put-IsTidy c (add_child c true cs) cs (mark-IsUsed (or_fresh (get_child c cs)))
      (mark-IsTidy true (or_fresh (get_child c cs)) (fresh-IsTidy c cs t)) t
insert-IsTidy (c ∷ d ∷ v) (node b cs) t =
    put-IsTidy c (insert (d ∷ v) (add_child c false cs)) cs
      (insert-IsUsed d v (add_child c false cs))
      (insert-IsTidy (d ∷ v) (add_child c false cs) (fresh-IsTidy c cs t)) t

has-fresh : (w : List ℕ) (o : Option Node) → has w (or_fresh o) ≡ has_in w o
unfolding has get_child
has-fresh [] none = refl
has-fresh (c ∷ w) none = refl
has-fresh w (some n) = refl

has-mark : (w : List ℕ) (n : Node) → has w (mark true n) ≡ (same_name [] w || has w n)
unfolding has
has-mark [] (node b cs) = refl
has-mark (c ∷ w) (node b cs) = refl

has-nil : (a b : Bool) (cs ds : Children) → a ≡ b → has [] (node a cs) ≡ has [] (node b ds)
unfolding has
has-nil a b cs ds e = e

inserted : (v w : List ℕ) (n : Node) → v ≢ [] → has w (insert v n) ≡ (same_name v w || has w n)
unfolding insert add_child
inserted [] w n h = absurd (h refl)
inserted (c ∷ []) [] (node b cs) h = has-nil b b (put_child c (add_child c true cs) cs) cs refl
inserted (c ∷ d ∷ v) [] (node b cs) h =
    has-nil b b (put_child c (insert (d ∷ v) (add_child c false cs)) cs) cs refl
inserted (c ∷ []) (e ∷ w) (node b cs) h = ground (
  arith,
  has-cons e w b (put_child c (add_child c true cs) cs),
  has-cons e w b cs,
  get-put c e (add_child c true cs) cs,
  has-mark w (or_fresh (get_child c cs)),
  has-fresh w (get_child c cs),
)
inserted (c ∷ d ∷ v) (e ∷ w) (node b cs) h = ground (
  arith,
  has-cons e w b (put_child c (insert (d ∷ v) (add_child c false cs)) cs),
  has-cons e w b cs,
  get-put c e (insert (d ∷ v) (add_child c false cs)) cs,
  inserted (d ∷ v) w (add_child c false cs) (λ q. cc),
  has-fresh w (get_child c cs),
)

-- Inserting a name that is not empty puts it into the tree, no other name comes or goes, and a tidy
-- tree stays tidy.
pub has-insert :
    (v w : List ℕ) (n : Node)
    → v ≢ []
    → IsTidy n
    → IsTidy (insert v n) × (has w (insert v n) ≡ (same_name v w || has w n))
has-insert v w n h t = (insert-IsTidy v n t, inserted v w n h)
