-- ===== src/Orders/Fields.antt =====
-- The loop of `UpdateOrderFields` (src/usecases/order_usecase.go): Go leaves open in which order it
-- meets the entries of the map.
use go_blockchain_watcher.Prelude.{
  String, ◌≡◌, ◌≢◌, refl, sym, ap, ◌∙◌, Bool, true, false, false≢true, [], ◌∷◌, ◌++◌, arith, eq_iff,
}
use go_blockchain_watcher.Map.{Map}
use go_blockchain_watcher.Values.{Value}
use go_blockchain_watcher.Orders.{Order}
use go_blockchain_watcher.Orders.UseCase.{
  Field, the_status, the_amount, the_rate, the_provider_order_id, the_provider, field_of, set_field,
  apply_field, apply_fields,
}

-- Two cases that are not the same field of an order.
abbrev apart : Field → Field → Bool
apart the_status the_status = false
apart the_amount the_amount = false
apart the_rate the_rate = false
apart the_provider_order_id the_provider_order_id = false
apart the_provider the_provider = false
apart _ _ = true

field_of-apart : (j k : String) → j ≢ k → apart (field_of j) (field_of k) ≡ true
field_of-apart j k ne = ground (
  arith,
  ne,
  eq_iff j "status",
  eq_iff j "amount",
  eq_iff j "rate",
  eq_iff j "providerOrderId",
  eq_iff j "provider",
  eq_iff k "status",
  eq_iff k "amount",
  eq_iff k "rate",
  eq_iff k "providerOrderId",
  eq_iff k "provider",
)

module _ {ObjectId : Type 0} where
  set_field-set_field :
      (f g : Field) (v w : Value) (o : Order ObjectId)
      → apart f g ≡ true
      → set_field f v (set_field g w o) ≡ set_field g w (set_field f v o)
  set_field-set_field the_status the_status v w o h = absurd (false≢true h)
  set_field-set_field the_amount the_amount v w o h = absurd (false≢true h)
  set_field-set_field the_rate the_rate v w o h = absurd (false≢true h)
  set_field-set_field the_provider_order_id the_provider_order_id v w o h = absurd (false≢true h)
  set_field-set_field the_provider the_provider v w o h = absurd (false≢true h)
  set_field-set_field f g v w o h = refl

  apply_fields-append :
      (m n : Map Value) (o : Order ObjectId)
      → apply_fields (m ++ n) o ≡ apply_fields n (apply_fields m o)
  unfolding apply_fields
  apply_fields-append [] n o = refl
  apply_fields-append ((j, v) ∷ m) n o = apply_fields-append m n (apply_field j v o)

  swapped :
      (before after : Map Value) (j k : String) (v w : Value) (o : Order ObjectId)
      → j ≢ k
      → apply_fields (before ++ (j, v) ∷ (k, w) ∷ after) o
        ≡ apply_fields (before ++ (k, w) ∷ (j, v) ∷ after) o
  unfolding apply_fields
  swapped before after j k v w o ne =
      apply_fields-append before ((j, v) ∷ (k, w) ∷ after) o
      ∙ ap (apply_fields after) (
          set_field-set_field (field_of k) (field_of j) w v (apply_fields before o)
            (field_of-apart k j (λ e. ne (sym e))))
      ∙ sym (apply_fields-append before ((k, w) ∷ (j, v) ∷ after) o)

-- Two orders of the entries of one map, by exchanges of neighbours with different keys.
pub data Reordered (m : Map Value) : Map Value → Type 0 where
  unchanged : Reordered m m
  exchanged :
      (before after : Map Value) (j k : String) (v w : Value)
      → j ≢ k
      → Reordered m (before ++ (j, v) ∷ (k, w) ∷ after)
      → Reordered m (before ++ (k, w) ∷ (j, v) ∷ after)

-- The order in which `UpdateOrderFields` meets the entries of its map has no effect on the order that
-- it stores.
pub apply_fields-Reordered :
    {ObjectId : Type 0} (m n : Map Value) (o : Order ObjectId)
    → Reordered m n
    → apply_fields m o ≡ apply_fields n o
apply_fields-Reordered m n o unchanged = refl
apply_fields-Reordered m n o (exchanged before after j k v w ne r) =
    apply_fields-Reordered m (before ++ (j, v) ∷ (k, w) ∷ after) o r
    ∙ swapped before after j k v w o ne
