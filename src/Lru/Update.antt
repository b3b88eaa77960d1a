-- ===== src/Lru/Update.antt =====
-- A cache against its specification: the list of its ids, the last used one first.
use luatest.Prelude.{
  ◌≡◌, ◌≢◌, ◌∙◌, sym, ap, refl, ℕ, zero, suc, ◌≤◌, ◌<◌, List, [], ◌∷◌, ◌++◌, map, Option, none,
  some, length, arith, inl, inr, ◌⊎◌, ◌==◌, Bool-cases, true, false, if◌then◌else◌, leb, tests,
}
use luatest.Std.Order.{string_order}
use luatest.Std.Set.{In, All-In}
use luatest.Std.Map
use luatest.Lru.{Node, Lru, erase_node, del, del_found, pop_back, evict_back, evict}
use luatest.Lru.Valid.{Distinct, IsIndexed, IsValid, address_unique}

-- The specification.
abbrev pub view : List Node → List (List ℕ)
view = map Node.id

unfoldable pub remove : List ℕ → List (List ℕ) → List (List ℕ)
remove id [] = []
remove id (x ∷ xs) =
    let rest = remove id xs in if Map.same string_order x id then rest else x ∷ rest

unfoldable pub take : ℕ → List (List ℕ) → List (List ℕ)
take zero xs = []
take (suc k) [] = []
take (suc k) (x ∷ xs) = x ∷ take k xs

-- The id at a place, or the empty one.
unfoldable pub id_at : ℕ → List (List ℕ) → List ℕ
id_at k [] = []
id_at zero (x ∷ xs) = x
id_at (suc k) (x ∷ xs) = id_at k xs

remove_absent :
    (id : List ℕ) (ns : List Node)
    → ((n : Node) → In n ns → n.id ≢ id)
    → remove id (view ns) ≡ view ns
unfolding remove
remove_absent id [] h = refl
remove_absent id (n ∷ ns) h =
    rw (Map.same-ne string_order n.id id (h n (inl refl)))
      (ap (◌∷◌ n.id) (remove_absent id ns (λ m k. h m (inr k))))

-- Erasing the node of an id removes the id.
view-erase_node :
    (id : List ℕ) (a : ℕ) (ns : List Node)
    → Distinct ns
    → ((n : Node) → In n ns → n.address ≡ a → n.id ≡ id)
    → ((n : Node) → In n ns → n.id ≡ id → n.address ≡ a)
    → view (erase_node a ns) ≡ remove id (view ns)
unfolding erase_node remove
view-erase_node id a [] d f g = refl
view-erase_node id a (n ∷ ns) d f g = elim (Bool-cases (n.address == a)) [
  | inl h ↦
      let at : n.address ≡ a = ground arith in
      let same : Map.same string_order n.id id ≡ true =
        ap (λ x. Map.same string_order x id) (f n (inl refl) at) ∙ Map.same_refl string_order id in
      rw (h, same)
        (sym (
          remove_absent id ns
            (λ m k e. All-In (λ w. w.address ≢ n.address) ns d.0 m k (g m (inr k) e ∙ sym at))))
  | inr h ↦
      let other : Map.same string_order n.id id ≡ false =
        Map.same-ne string_order n.id id (λ e. ground (arith, g n (inl refl) e)) in
      rw (h, other)
        (ap (◌∷◌ n.id) (view-erase_node id a ns d.1 (λ m k. f m (inr k)) (λ m k. g m (inr k))))
]

view-del_found :
    (id : List ℕ) (s : Lru) (o : Option ℕ)
    → s.it id ≡ o
    → IsIndexed s
    → view (del_found id s o).ids ≡ remove id (view s.ids)
unfolding del_found
view-del_found id s none e v =
    sym (remove_absent id s.ids (λ n m f. cc (v.indexed n m, ap s.it f, e)))
view-del_found id s (some a) e v = view-erase_node id a s.ids v.distinct to from
  where
    node : Node
    node = record { address = a; id = id }

    to : (n : Node) → In n s.ids → n.address ≡ a → n.id ≡ id
    to n m f = ap Node.id (address_unique s.ids v.distinct n node m (v.found id a e) f)

    from : (n : Node) → In n s.ids → n.id ≡ id → n.address ≡ a
    from n m f = cc (v.indexed n m, ap s.it f, e)

-- On a valid cache `del` removes the id.
pub view-del : (id : List ℕ) (s : Lru) → IsValid s → view (del id s).ids ≡ remove id (view s.ids)
unfolding del
view-del id s v = view-del_found id s (s.it id) refl v.is_indexed

-- `pop_back` splits off the last node.
pop_back_split :
    (n : Node) (ns : List Node)
    → (xs : List Node) × (l : Node) × ((n ∷ ns ≡ xs ++ l ∷ [])
        × (pop_back (n ∷ ns) ≡ some (l.id, xs)))
unfolding pop_back
pop_back_split n [] = ([], n, (refl, refl))
pop_back_split n (m ∷ ns) =
    let (xs, l, (same, popped)) = pop_back_split m ns in
    (n ∷ xs, l, (ap (◌∷◌ n) same, rw popped refl))

abbrev pub Kept : Lru → Type 0
Kept s = (length s.ids ≤ s.num) × (evict s ≡ ([], s))

abbrev pub Dropped : Lru → Type 0
Dropped s =
    (xs : List Node) × (l : Node) × ((s.num < length s.ids)
      × (s.ids ≡ xs ++ l ∷ [])
      × (evict s ≡ (l.id, record s { ids = xs; it = Map.erase string_order l.id s.it })))

over_split : (s : Lru) (ns : List Node) → s.ids ≡ ns → leb (length s.ids) s.num ≡ false → Dropped s
unfolding evict evict_back
over_split s [] e h = absurd (ground (arith, ap length e))
over_split s (n ∷ ns) e h =
    let (xs, l, (same, popped)) = pop_back_split n ns in
    (xs, l, (ground arith, e ∙ same, rw (h, e, popped) refl))

pub evict-cases : (s : Lru) → Kept s ⊎ Dropped s
unfolding evict
evict-cases s = elim (Bool-cases (leb (length s.ids) s.num)) [
  | inl h ↦ inl (omega tests, rw h refl)
  | inr h ↦ inr (over_split s s.ids refl h)
]
