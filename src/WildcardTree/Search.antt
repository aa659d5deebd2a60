-- ===== src/WildcardTree/Search.antt =====
-- WildcardTreeNode::findOne against the set of the names in the tree.
use baiakthunder.Base.{
  ℕ, ◌≡◌, ◌≢◌, refl, sym, subst, ◌∙◌, ◌<◌, Bool, true, false, Option, none, some, List, [], ◌∷◌,
  ◌++◌, arith, Option-cases, inl, inr,
}
use baiakthunder.WildcardTree.{
  Node, Children, node, leaf, child, get_child, ReturnValue, no_error,
  player_with_this_name_is_not_online, name_is_too_ambiguous, complete, walk, find_one,
}
use baiakthunder.WildcardTree.Words.{has, same_name, has-cons, get-IsTidy, IsTidy, AreTidy, IsUsed}

same_name_refl : (w : List ℕ) → same_name w w ≡ true
same_name_refl [] = refl
same_name_refl (c ∷ w) = ground (arith, same_name_refl w)

same_name-append : (q v w : List ℕ) → same_name (q ++ v) (q ++ w) ≡ same_name v w
same_name-append [] v w = refl
same_name-append (c ∷ q) v w = ground (arith, same_name-append q v w)

has-first :
    (c : ℕ) (w : List ℕ) (b : Bool) (n : Node) (cs : Children)
    → has (c ∷ w) (node b (child c n cs)) ≡ has w n
unfolding has get_child
has-first c w b n cs = ground arith

has-second :
    (c d : ℕ) (w : List ℕ) (b : Bool) (m n : Node) (cs : Children)
    → c < d
    → has (d ∷ w) (node b (child c m (child d n cs))) ≡ has w n
unfolding has get_child
has-second c d w b m n cs h = ground arith

-- A used tidy node leads to a name.
some_name : (n : Node) → IsUsed n → IsTidy n → (w : List ℕ) × has w n ≡ true
unfolding has
some_name (node true cs) u t = ([], refl)
some_name (node false leaf) u t = absurd (cc)
some_name (node false (child c n cs)) u (v, t, a, ts) =
    let (w, h) = some_name n v t in (c ∷ w, has-first c w false n cs ∙ h)

abbrev Completed : ReturnValue → List ℕ → Node → Type 0
Completed no_error rest n = (w : List ℕ) → has w n ≡ same_name rest w
Completed player_with_this_name_is_not_online rest n = ⊥
Completed name_is_too_ambiguous rest n =
    (v : List ℕ) × (w : List ℕ) × (same_name v w ≡ false) × (has v n ≡ true) × (has w n ≡ true)

alone : (w : List ℕ) → has w (node true leaf) ≡ same_name [] w
unfolding has get_child
alone [] = refl
alone (c ∷ w) = refl

only_child :
    (c : ℕ) (n : Node) (rest w : List ℕ)
    → ((w : List ℕ) → has w n ≡ same_name rest w)
    → has w (node false (child c n leaf)) ≡ same_name (c ∷ rest) w
unfolding has get_child
only_child c n rest [] f = refl
only_child c n rest (d ∷ w) f = ground (arith, f w)

Completed-below :
    (c : ℕ) (n : Node) (r : ReturnValue) (rest : List ℕ)
    → Completed r rest n
    → Completed r (c ∷ rest) (node false (child c n leaf))
Completed-below c n no_error rest f = λ w. only_child c n rest w f
Completed-below c n player_with_this_name_is_not_online rest f = elim f [ ]
Completed-below c n name_is_too_ambiguous rest (v, w, e, p, q) = (
  c ∷ v,
  c ∷ w,
  ground (arith, e),
  has-first c v false n leaf ∙ p,
  has-first c w false n leaf ∙ q,
)

completed : (n : Node) → IsUsed n → IsTidy n → Completed (complete n).0 (complete n).1 n
unfolding complete has
completed (node true leaf) u t = alone
completed (node false leaf) u t = absurd (cc)
completed (node true (child c n leaf)) u (v, t, a, ts) =
    let (w, h) = some_name n v t in ([], c ∷ w, refl, refl, has-first c w true n leaf ∙ h)
completed (node false (child c n leaf)) u (v, t, a, ts) =
    Completed-below c n (complete n).0 (complete n).1 (completed n v t)
completed (node b (child c m (child d n cs))) u (v, t, a, (v2, t2, a2, ts)) =
    let (w, h) = some_name m v t in
    let (w2, h2) = some_name n v2 t2 in
    (
      c ∷ w,
      d ∷ w2,
      ground (arith, a.0),
      has-first c w b m (child d n cs) ∙ h,
      has-second c d w2 b m n cs a.0 ∙ h2,
    )

-- What an answer says about the names that begin with the query.
abbrev pub Answers : List ℕ → Node → ReturnValue → List ℕ → Type 0
Answers q n no_error result =
    (rest : List ℕ) × (result ≡ q ++ rest)
    × ((w : List ℕ) → has (q ++ w) n ≡ same_name result (q ++ w))
Answers q n player_with_this_name_is_not_online result = (w : List ℕ) → has (q ++ w) n ≡ false
Answers q n name_is_too_ambiguous result =
    (v : List ℕ) × (w : List ℕ) × (same_name v w ≡ false)
    × (has (q ++ v) n ≡ true)
    × (has (q ++ w) n ≡ true)

-- The names under the node that a walk leads to.
abbrev Reached : List ℕ → Node → Option Node → Type 0
Reached q n none = (w : List ℕ) → has (q ++ w) n ≡ false
Reached q n (some m) = IsTidy m × ((w : List ℕ) → has (q ++ w) n ≡ has w m)

Reached-child :
    (c : ℕ) (q : List ℕ) (b : Bool) (cs : Children) (n : Node) (o : Option Node)
    → get_child c cs ≡ some n
    → Reached q n o
    → Reached (c ∷ q) (node b cs) o
Reached-child c q b cs n none h f = λ w. has-cons c (q ++ w) b cs ∙ ground (arith, h, f w)
Reached-child c q b cs n (some m) h (t, f) =
    (t, λ w. has-cons c (q ++ w) b cs ∙ ground (arith, h, f w))

Reached-from :
    (c : ℕ) (q : List ℕ) (b : Bool) (cs : Children) (o : Option Node)
    → ((n : Node) → IsTidy n → Reached q n (walk q n))
    → AreTidy cs
    → get_child c cs ≡ o
    → Reached (c ∷ q) (node b cs) (elim o [ none ↦ none | some n ↦ walk q n ])
Reached-from c q b cs none f t h = λ w. has-cons c (q ++ w) b cs ∙ ground (arith, h)
Reached-from c q b cs (some n) f t h =
    Reached-child c q b cs n (walk q n) h (f n (get-IsTidy c cs n t h).1)

reached : (q : List ℕ) (n : Node) → IsTidy n → Reached q n (walk q n)
unfolding walk
reached [] n t = (t, λ w. refl)
reached (c ∷ q) (node b cs) t = Reached-from c q b cs (get_child c cs) (reached q) t refl

walk-IsUsed : (q : List ℕ) (n m : Node) → IsTidy n → IsUsed n → walk q n ≡ some m → IsUsed m
unfolding walk
walk-IsUsed [] n m t u e = subst IsUsed (ground arith) u
walk-IsUsed (c ∷ q) (node b cs) m t u e = elim (Option-cases (get_child c cs)) [
  | inl h ↦ absurd (ground arith)
  | inr (n, h) ↦ let (v, s) = get-IsTidy c cs n t h in walk-IsUsed q n m s v (ground arith)
]

walk-IsUsed-first :
    (c : ℕ) (q : List ℕ) (b : Bool) (cs : Children) (m : Node)
    → AreTidy cs
    → walk (c ∷ q) (node b cs) ≡ some m
    → IsUsed m
unfolding walk
walk-IsUsed-first c q b cs m t e = elim (Option-cases (get_child c cs)) [
  | inl h ↦ absurd (ground arith)
  | inr (n, h) ↦ let (v, s) = get-IsTidy c cs n t h in walk-IsUsed q n m s v (ground arith)
]

answered :
    (q : List ℕ) (n m : Node) (r : ReturnValue) (rest : List ℕ)
    → ((w : List ℕ) → has (q ++ w) n ≡ has w m)
    → Completed r rest m
    → Answers q n r (q ++ rest)
answered q n m no_error rest f g = (rest, refl, λ w. f w ∙ g w ∙ sym (same_name-append q rest w))
answered q n m player_with_this_name_is_not_online rest f g = elim g [ ]
answered q n m name_is_too_ambiguous rest f (v, w, e, h, k) = (v, w, e, f v ∙ h, f w ∙ k)

Answers-from :
    (n : Node) (q : List ℕ) (o : Option Node)
    → IsTidy n
    → q ≢ []
    → walk q n ≡ o
    → Reached q n o
    → let a : ReturnValue × List ℕ = elim o [
      | none ↦ (player_with_this_name_is_not_online, [])
      | some m ↦ let (r, rest) = complete m in (r, q ++ rest)
    ] in
      Answers q n a.0 a.1
unfolding walk
Answers-from n q none t h e f = f
Answers-from n [] (some m) t h e (s, f) = absurd (h refl)
Answers-from (node b cs) (c ∷ q) (some m) t h e (s, f) =
    answered (c ∷ q) (node b cs) m (complete m).0 (complete m).1 f
      (completed m (walk-IsUsed-first c q b cs m t e) s)

-- Searched from a tidy root for a query that is not empty: a success gives a name that begins with
-- the query, and the names that do are that one alone; not online means that no name does;
-- ambiguous means that two different names do.
pub find_one-Answers :
    (n : Node) (q : List ℕ) → IsTidy n → q ≢ [] → Answers q n (find_one n q).0 (find_one n q).1
unfolding find_one
find_one-Answers n q t h = Answers-from n q (walk q n) t h refl (reached q n t)
