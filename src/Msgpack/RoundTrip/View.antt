-- ===== src/Msgpack/RoundTrip/View.antt =====
-- msgpack/cc/lmsgpack.cc: what a reader should see of an encoded Lua value.
use luatest.Prelude.{false, ℕ, suc, ◌^◌, ◌<◌, ◌≡◌, true, length, if◌then◌else◌}
use Prim.Native.Nat.{max}
use luatest.Msgpack.Floats.{Floats}
use luatest.Msgpack.Encode.{Value, Entries, table_len, is_array}
use luatest.Msgpack.Decode.{Built, Items, Pairs, is_key}
use luatest.Msgpack.RoundTrip.Numbers.{IsInt64}

-- How deep the tables of a value are nested, as far as the encoder goes: it does not look at the
-- keys of an array.
unfoldable mutual
  pub height : Value → ℕ
  height (Value.table rawlen es) =
      suc (if is_array rawlen es then height_items es else height_pairs es)
  height _ = 0

  pub height_items : Entries → ℕ
  height_items Entries.end = 0
  height_items (Entries.entry k v es) = max (height v) (height_items es)

  pub height_pairs : Entries → ℕ
  height_pairs Entries.end = 0
  height_pairs (Entries.entry k v es) = max (max (height k) (height v)) (height_pairs es)

-- What a reader should see of a value: a table whose raw length is its number of entries is the
-- array of its values in the order of the traversal, and any other is the sequence of its pairs.
unfoldable mutual
  pub view : Value → Built
  view Value.nil = Built.nil
  view (Value.boolean b) = Built.boolean b
  view (Value.integer v) = Built.integer v
  view (Value.number d) = Built.number d
  view (Value.string p) = Built.string p
  view (Value.table rawlen es) =
      if is_array rawlen es then Built.array (view_items es) else Built.object (view_pairs es)
  view (Value.other t) = Built.nil

  pub view_items : Entries → Items
  view_items Entries.end = Items.end
  view_items (Entries.entry k v es) = Items.item (view v) (view_items es)

  pub view_pairs : Entries → Pairs
  view_pairs Entries.end = Pairs.done
  view_pairs (Entries.entry k v es) = Pairs.pair (view k) (view v) (view_pairs es)

-- A value of the types that the format has, within its sizes; a key of a Lua table is neither nil
-- nor a NaN.
abbrev mutual
  pub IsPackable : Floats → Value → Type 0
  IsPackable fl Value.nil = Unit
  IsPackable fl (Value.boolean b) = Unit
  IsPackable fl (Value.integer v) = IsInt64 v
  IsPackable fl (Value.number d) = d < 2 ^ 64
  IsPackable fl (Value.string p) = length p < 2 ^ 31
  IsPackable fl (Value.table rawlen es) =
      (table_len es < 2 ^ 32)
      × (is_array rawlen es ≡ true → ItemsPackable fl es)
      × (is_array rawlen es ≡ false → PairsPackable fl es)
  IsPackable fl (Value.other t) = ⊥

  pub ItemsPackable : Floats → Entries → Type 0
  ItemsPackable fl Entries.end = Unit
  ItemsPackable fl (Entries.entry k v es) = IsPackable fl v × ItemsPackable fl es

  pub PairsPackable : Floats → Entries → Type 0
  PairsPackable fl Entries.end = Unit
  PairsPackable fl (Entries.entry k v es) =
      (is_key fl (view k) ≡ true) × IsPackable fl k × IsPackable fl v × PairsPackable fl es
