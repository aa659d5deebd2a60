-- ===== src/Container/Walk.antt =====
-- ContainerIterator of src/container.cpp, and the loops that walk with it over all that a container holds.
use baiakthunder.Base.{
  ℕ, zero, suc, ◌+◌, ◌%◌, ◌^◌, ◌<◌, ◌≡◌, refl, sym, ap, ◌∙◌, arith, Bool, true, false, ◌||◌, ◌==◌,
  List, [], ◌∷◌, ◌++◌, if◌then◌else◌, Bool-cases, inl, inr, Option, none, some,
}
use baiakthunder.Container.{Item, plain, container, Items, nothing, first, info}

unfoldable pub is_empty : Items → Bool
is_empty nothing = true
is_empty (first x xs) = false

unfoldable pub contents_of : Item → Items
contents_of (plain i) = nothing
contents_of (container i m w xs) = xs

-- Container::iterator: the containers to walk over, the first of them from the current item on.
unfoldable pub iterator : Items → List Items
iterator xs = if is_empty xs then [] else xs ∷ []

unfoldable pub drop_ended : Items → List Items → List Items
drop_ended nothing q = q
drop_ended (first x xs) q = first x xs ∷ q

-- ContainerIterator::advance
unfoldable pub advance : Item → Items → List Items → List Items
advance x xs q = drop_ended xs (if is_empty (contents_of x) then q else q ++ contents_of x ∷ [])

-- The loop of Container::getItemHoldingCount. The first number is fuel, and `none` is a walk that has not
-- ended by then, or stands at the end of a container, where there is no item to look at.
unfoldable pub count_loop : ℕ → ℕ → List Items → Option ℕ
count_loop zero counter over = none
count_loop (suc n) counter [] = some counter
count_loop (suc n) counter (nothing ∷ q) = none
count_loop (suc n) counter (first x xs ∷ q) = count_loop n ((counter + 1) % 2 ^ 32) (advance x xs q)

-- The loop of Container::isHoldingItem, the same way.
unfoldable pub holding_loop : ℕ → ℕ → List Items → Option Bool
holding_loop zero u over = none
holding_loop (suc n) u [] = some false
holding_loop (suc n) u (nothing ∷ q) = none
holding_loop (suc n) u (first x xs ∷ q) =
    let rest = holding_loop n u (advance x xs q) in if (info x).uid == u then some true else rest

-- The items that a container holds, and whether one of them is `u`, by the nesting
unfoldable mutual
  pub held_by : Item → ℕ
  held_by (plain i) = 0
  held_by (container i m w xs) = held xs

  pub held : Items → ℕ
  held nothing = 0
  held (first x xs) = 1 + held_by x + held xs

unfoldable mutual
  pub holds_in : ℕ → Item → Bool
  holds_in u (plain i) = false
  holds_in u (container i m w xs) = holds u xs

  pub holds : ℕ → Items → Bool
  holds u nothing = false
  holds u (first x xs) = (info x).uid == u || holds_in u x || holds u xs

-- With so much fuel
unfoldable pub get_item_holding_count : ℕ → Items → Option ℕ
get_item_holding_count n xs = count_loop n 0 (iterator xs)

unfoldable pub is_holding_item : ℕ → ℕ → Items → Option Bool
is_holding_item n u xs = holding_loop n u (iterator xs)

-- All that is still to be walked over
total : List Items → ℕ
total [] = 0
total (xs ∷ q) = held xs + total q

some_hold : ℕ → List Items → Bool
some_hold u [] = false
some_hold u (xs ∷ q) = holds u xs || some_hold u q

-- No container of a walk is at its end.
IsReady : List Items → Type 0
IsReady [] = Unit
IsReady (xs ∷ q) = (is_empty xs ≡ false) × IsReady q

total-append : (q : List Items) (xs : Items) → total (q ++ xs ∷ []) ≡ total q + held xs
unfolding total
total-append [] xs = omega arith
total-append (ys ∷ q) xs = omega (arith, total-append q xs)

some_hold-append :
    (u : ℕ) (q : List Items) (xs : Items)
    → some_hold u (q ++ xs ∷ []) ≡ (some_hold u q || holds u xs)
unfolding some_hold
some_hold-append u [] xs = ground arith
some_hold-append u (ys ∷ q) xs = ground (arith, some_hold-append u q xs)

append-IsReady :
    (q : List Items) (xs : Items) → is_empty xs ≡ false → IsReady q → IsReady (q ++ xs ∷ [])
unfolding IsReady
append-IsReady [] xs h r = (h, tt)
append-IsReady (ys ∷ q) xs h r = (r.0, append-IsReady q xs h r.1)

-- One step of the walk takes one item off, and puts what that item holds behind.
record Step (x : Item) (xs : Items) (q q' : List Items) : Type 0 where
  one_less : total q' + 1 ≡ total (first x xs ∷ q)
  holding : (u : ℕ) → ((info x).uid == u || some_hold u q') ≡ some_hold u (first x xs ∷ q)
  ready : IsReady q'

drop_ended-Step :
    (x : Item) (xs : Items) (q r : List Items)
    → total r ≡ total q + held_by x
    → ((u : ℕ) → some_hold u r ≡ (some_hold u q || holds_in u x))
    → IsReady r
    → Step x xs q (drop_ended xs r)
unfolding drop_ended total some_hold held holds IsReady is_empty
drop_ended-Step x nothing q r t h ready = record {
  one_less = omega (arith, t);
  holding = λ u. ground (arith, h u);
  ready = ready;
}
drop_ended-Step x (first y ys) q r t h ready = record {
  one_less = omega (arith, t);
  holding = λ u. ground (arith, h u);
  ready = (refl, ready);
}

held-contents_of : (x : Item) → held_by x ≡ held (contents_of x)
unfolding held contents_of
held-contents_of (plain i) = refl
held-contents_of (container i m w xs) = refl

holds-contents_of : (u : ℕ) (x : Item) → holds_in u x ≡ holds u (contents_of x)
unfolding holds contents_of
holds-contents_of u (plain i) = refl
holds-contents_of u (container i m w xs) = refl

held_empty : (xs : Items) → is_empty xs ≡ true → held xs ≡ 0
unfolding held is_empty
held_empty nothing h = refl
held_empty (first x xs) h = absurd cc

holds_empty : (u : ℕ) (xs : Items) → is_empty xs ≡ true → holds u xs ≡ false
unfolding holds is_empty
holds_empty u nothing h = refl
holds_empty u (first x xs) h = absurd cc

or_same : (b c : Bool) → c ≡ false → b ≡ (b || c)
or_same b c h = ground (arith, h)

advance-Step : (x : Item) (xs : Items) (q : List Items) → IsReady q → Step x xs q (advance x xs q)
unfolding advance
advance-Step x xs q ready = elim (Bool-cases (is_empty (contents_of x))) [
  | inl h ↦ rw h (
      drop_ended-Step x xs q q (omega (arith, held-contents_of x, held_empty (contents_of x) h))
        (λ u.
          or_same (some_hold u q) (holds_in u x)
            (holds-contents_of u x ∙ holds_empty u (contents_of x) h))
        ready)
  | inr h ↦ rw h (
      drop_ended-Step x xs q (q ++ contents_of x ∷ [])
        (omega (arith, total-append q (contents_of x), held-contents_of x))
        (λ u.
          some_hold-append u q (contents_of x)
          ∙ ap (λ b. some_hold u q || b) (sym (holds-contents_of u x)))
        (append-IsReady q (contents_of x) h ready))
]

IsReady-rest : (xs : Items) (q : List Items) → IsReady (xs ∷ q) → IsReady q
unfolding IsReady
IsReady-rest xs q r = r.1

or_if : (b c : Bool) → (if b then some true else some c) ≡ some (b || c)
or_if true c = refl
or_if false c = refl

count_loop-total :
    (n counter : ℕ) (over : List Items)
    → IsReady over
    → total over < n
    → counter < 2 ^ 32
    → count_loop n counter over ≡ some ((counter + total over) % 2 ^ 32)
unfolding count_loop
count_loop-total zero counter over ready le small = absurd (omega arith)
count_loop-total (suc n) counter [] ready le small = ap some (unfold total in omega arith)
count_loop-total (suc n) counter (nothing ∷ q) ready le small = unfold IsReady is_empty in absurd cc
count_loop-total (suc n) counter (first x xs ∷ q) ready le small =
    let s = advance-Step x xs q (IsReady-rest (first x xs) q ready) in
    count_loop-total n ((counter + 1) % 2 ^ 32) (advance x xs q) s.ready (omega (arith, s.one_less))
      (omega arith)
    ∙ ap some (omega (arith, s.one_less))

holding_loop-holds :
    (n u : ℕ) (over : List Items)
    → IsReady over
    → total over < n
    → holding_loop n u over ≡ some (some_hold u over)
unfolding holding_loop
holding_loop-holds zero u over ready le = absurd (omega arith)
holding_loop-holds (suc n) u [] ready le = unfold some_hold in refl
holding_loop-holds (suc n) u (nothing ∷ q) ready le = unfold IsReady is_empty in absurd cc
holding_loop-holds (suc n) u (first x xs ∷ q) ready le =
    let s = advance-Step x xs q (IsReady-rest (first x xs) q ready) in
    let rest = holding_loop-holds n u (advance x xs q) s.ready (omega (arith, s.one_less)) in
    ap (λ b. if (info x).uid == u then some true else b) rest
    ∙ or_if ((info x).uid == u) _
    ∙ ap some (s.holding u)

-- With any fuel above the number of items that the nesting holds, both walks end, and never look for an
-- item where there is none. They answer what the nesting says: how many items a container
-- holds, as a 32-bit number, those in containers within it included, and whether a given one is among
-- them.
pub get_item_holding_count_lem :
    (n : ℕ) (xs : Items)
    → held xs < n
    → (get_item_holding_count n xs ≡ some (held xs % 2 ^ 32))
      × ((u : ℕ) → is_holding_item n u xs ≡ some (holds u xs))
unfolding get_item_holding_count is_holding_item iterator
get_item_holding_count_lem n nothing le =
    unfold is_empty held holds in
    (
      count_loop-total n 0 [] (unfold IsReady in tt) (unfold total in le) (omega arith)
          ∙ ap some (unfold total in omega arith),
      λ u.
          holding_loop-holds n u [] (unfold IsReady in tt) (unfold total in le)
          ∙ (unfold some_hold in refl),
    )
get_item_holding_count_lem n (first x xs) le =
    let over : List Items = first x xs ∷ [] in
    let ready : IsReady over = unfold IsReady is_empty in (refl, tt) in
    let all : total over ≡ held (first x xs) = unfold total in omega arith in
    unfold is_empty in
    (
      count_loop-total n 0 over ready (omega (arith, all)) (omega arith)
          ∙ ap (λ k. some (k % 2 ^ 32)) (omega (arith, all)),
      λ u.
          holding_loop-holds n u over ready (omega (arith, all))
          ∙ ap some (unfold some_hold in ground arith),
    )
