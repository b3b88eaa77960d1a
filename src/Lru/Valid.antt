-- ===== src/Lru/Valid.antt =====
-- The nodes of a cache and the index of their ids agree.
use mathlib.Core.Path.{subst}
use luatest.Prelude.{
  ◌≡◌, ◌≢◌, ◌∙◌, sym, ap, refl, ℕ, ◌≤◌, ◌<◌, List, [], ◌∷◌, Option, none, some, length, arith, All,
  inl, inr, ◌==◌, Bool-cases,
}
use luatest.Std.Order.{string_order}
use luatest.Std.Set.{In, All-In, In-All}
use luatest.Std.Map
use luatest.Lru.{Node, Lru, erase_node, del, del_found, push_front}

-- No two nodes have the same address.
abbrev pub Distinct : List Node → Type 0
Distinct [] = Unit
Distinct (n ∷ ns) = All (λ m. m.address ≢ n.address) ns × Distinct ns

pub record IsIndexed (s : Lru) : Type 0 where
  pub distinct : Distinct s.ids
  pub below : (n : Node) → In n s.ids → n.address < s.next
  pub indexed : (n : Node) → In n s.ids → s.it n.id ≡ some n.address
  pub found : (id : List ℕ) (a : ℕ) → s.it id ≡ some a → In (record { address = a; id = id }) s.ids

pub record IsValid (s : Lru) : Type 0 where
  pub is_indexed : IsIndexed s
  pub small : length s.ids ≤ s.num

pub address_unique :
    (ns : List Node)
    → Distinct ns
    → (x y : Node) → In x ns
    → In y ns
    → x.address ≡ y.address
    → x ≡ y
address_unique [] d x y m n e = absurd m
address_unique (z ∷ ns) d x y (inl f) (inl g) e = f ∙ sym g
address_unique (z ∷ ns) d x y (inl f) (inr n) e =
    absurd (All-In (λ w. w.address ≢ z.address) ns d.0 y n (sym e ∙ ap Node.address f))
address_unique (z ∷ ns) d x y (inr m) (inl g) e =
    absurd (All-In (λ w. w.address ≢ z.address) ns d.0 x m (e ∙ ap Node.address g))
address_unique (z ∷ ns) d x y (inr m) (inr n) e = address_unique ns d.1 x y m n e

pub In-of-erase_node : (a : ℕ) (z : Node) (ns : List Node) → In z (erase_node a ns) → In z ns
unfolding erase_node
In-of-erase_node a z [] m = m
In-of-erase_node a z (n ∷ ns) m = ground (arith, In-of-erase_node a z ns)

In-erase_node :
    (a : ℕ) (z : Node) (ns : List Node) → In z ns → z.address ≢ a → In z (erase_node a ns)
unfolding erase_node
In-erase_node a z [] m d = m
In-erase_node a z (n ∷ ns) (inl e) d = ground (arith, ap Node.address e)
In-erase_node a z (n ∷ ns) (inr m) d = ground (arith, In-erase_node a z ns m d)

-- The address of the erased node is gone.
erase_node-ne :
    (a : ℕ) (z : Node) (ns : List Node) → Distinct ns → In z (erase_node a ns) → z.address ≢ a
unfolding erase_node
erase_node-ne a z [] d m = absurd m
erase_node-ne a z (n ∷ ns) d m = elim (Bool-cases (n.address == a)) [
  | inl h ↦ λ e. All-In (λ w. w.address ≢ n.address) ns d.0 z (rw h at m) (ground (arith, e))
  | inr h ↦ elim (rw h at m) [
    | inl f ↦ λ e. ground (arith, e, ap Node.address f)
    | inr k ↦ erase_node-ne a z ns d.1 k
  ]
]

erase_node-Distinct : (a : ℕ) (ns : List Node) → Distinct ns → Distinct (erase_node a ns)
unfolding erase_node
erase_node-Distinct a [] d = tt
erase_node-Distinct a (n ∷ ns) d = elim (Bool-cases (n.address == a)) [
  | inl h ↦ rw h d.1
  | inr h ↦ rw h (
    In-All (λ w. w.address ≢ n.address) (erase_node a ns)
        (λ z m. All-In (λ w. w.address ≢ n.address) ns d.0 z (In-of-erase_node a z ns m)),
    erase_node-Distinct a ns d.1,
  )
]

-- Taking one node out of the list and its id out of the index.
pub shrink-IsIndexed :
    (s : Lru) (l : Node) (ns : List Node)
    → IsIndexed s
    → In l s.ids
    → Distinct ns
    → ((z : Node) → In z ns → In z s.ids × (z.address ≢ l.address))
    → ((z : Node) → In z s.ids → z.address ≢ l.address → In z ns)
    → IsIndexed (record s { ids = ns; it = Map.erase string_order l.id s.it })
shrink-IsIndexed s l ns v m d left kept = record {
  distinct = d;
  below = λ n k. v.below n (left n k).0;
  indexed = λ n k.
      Map.erase_other string_order l.id n.id s.it
        (λ f. (left n k).1 (some_inj (sym (v.indexed n (left n k).0) ∙ ap s.it f ∙ v.indexed l m)))
      ∙ v.indexed n (left n k).0;
  found = λ id a f.
      let (other, g) = Map.erase-some string_order l.id id s.it a f in
      let old = v.found id a g in
      kept (record { address = a; id = id }) old
        (λ e. other (
          ap Node.id
            (address_unique s.ids v.distinct (record { address = a; id = id }) l old m e)));
}
  where
    some_inj : {x y : ℕ} → some x ≡ some y → x ≡ y
    some_inj e = cc e

pub del_found-IsIndexed :
    (id : List ℕ) (s : Lru) (o : Option ℕ)
    → s.it id ≡ o
    → IsIndexed s
    → IsIndexed (del_found id s o)
unfolding del_found
del_found-IsIndexed id s none e v = v
del_found-IsIndexed id s (some a) e v =
    shrink-IsIndexed s (record { address = a; id = id }) (erase_node a s.ids) v (v.found id a e)
      (erase_node-Distinct a s.ids v.distinct)
      (λ z m. (In-of-erase_node a z s.ids m, erase_node-ne a z s.ids v.distinct m))
      (λ z m d. In-erase_node a z s.ids m d)

pub del-IsIndexed : (id : List ℕ) (s : Lru) → IsIndexed s → IsIndexed (del id s)
unfolding del
del-IsIndexed id s v = del_found-IsIndexed id s (s.it id) refl v

pub del_found-absent :
    (id : List ℕ) (s : Lru) (o : Option ℕ) → s.it id ≡ o → (del_found id s o).it id ≡ none
unfolding del_found
del_found-absent id s none e = e
del_found-absent id s (some a) e = Map.erase_self string_order id s.it

-- A new id goes in front, at an address that no node has.
pub push_front-IsIndexed :
    (id : List ℕ) (s : Lru) → s.it id ≡ none → IsIndexed s → IsIndexed (push_front id s)
unfolding push_front
push_front-IsIndexed id s e v = record {
  distinct = (
    In-All (λ m. m.address ≢ s.next) s.ids (λ z m f. absurd (omega (arith, v.below z m, f))),
    v.distinct,
  );
  below = λ n m. elim m [
    | inl f ↦ omega (arith, ap Node.address f)
    | inr k ↦ omega (arith, v.below n k)
  ];
  indexed = λ n m. elim m [
    | inl f ↦
        subst (λ w. Map.assign string_order id s.next s.it w.id ≡ some w.address) (sym f)
          (Map.assign_self string_order id s.next s.it)
    | inr k ↦
        Map.assign_other string_order id n.id s.next s.it (λ f. cc (v.indexed n k, ap s.it f, e))
        ∙ v.indexed n k
  ];
  found = λ x a f. elim (Map.assign-some string_order id x s.next a s.it f) [
    | inl (same, at) ↦ inl (
        ap (λ (w : ℕ). record { address = w; id = x }) (sym at)
        ∙ ap (λ (w : List ℕ). record { address = s.next; id = w }) same)
    | inr (d, g) ↦ inr (v.found x a g)
  ];
}
