-- ===== src/Queue/Keys.antt =====
-- Which Redis keys of managers/queue/queue.go are different.
use Prim.Native.String.{◌++◌, len}
use text.Mathlib.TextLemmas.{append_assoc, append_cancel_left}
use text.Mathlib.TextPositions.{len-append, starts_with-append}
use text.Mathlib.Text.{starts_with}
use go_blockchain_watcher.Prelude.{
  String, ◌≡◌, ◌≢◌, sym, ap, subst, true, false, ◌==◌, arith, eq-false_of_ne, false≢true,
}
use go_blockchain_watcher.Queue.{get_bull_key, get_repeat_job_key, repeat_job_id}

pub get_bull_key_inj : (q x y : String) → get_bull_key q x ≡ get_bull_key q y → x ≡ y
unfolding get_bull_key
get_bull_key_inj q x y e = append_cancel_left ":" x y (
    append_cancel_left q (":" ++ x) (":" ++ y)
      (append_cancel_left "bull:" (q ++ (":" ++ x)) (q ++ (":" ++ y)) e))

-- The key of a repeat job's definition is a key of the queue with "repeat:" before the ID.
pub get_repeat_job_key_lem :
    (q id : String) → get_repeat_job_key q id ≡ get_bull_key q ("repeat:" ++ id)
unfolding get_repeat_job_key get_bull_key
get_repeat_job_key_lem q id =
    ap (λ (s : String). "bull:" ++ (q ++ s)) (append_assoc ":" "repeat:" id)

-- No key of the queue is the queue's bare name.
pub get_bull_key-ne-name : (q x : String) → (get_bull_key q x == q) ≡ false
unfolding get_bull_key
get_bull_key-ne-name q x = eq-false_of_ne _ _ (λ e. absurd (
    omega (
      arith,
      ap len e,
      len-append "bull:" (q ++ (":" ++ x)),
      len-append q (":" ++ x),
      len-append ":" x,
    )))

pub get_bull_key-ne : (q x y : String) → x ≢ y → (get_bull_key q x == get_bull_key q y) ≡ false
get_bull_key-ne q x y h = eq-false_of_ne _ _ (λ e. h (get_bull_key_inj q x y e))

pub wait-ne-repeat : (x : String) → "wait" ≢ "repeat:" ++ x
wait-ne-repeat x e =
    false≢true
      (subst (λ s. starts_with s "repeat:" ≡ true) (sym e) (starts_with-append "repeat:" x))

pub id-ne-repeat_id : (id : String) → id ≢ "repeat:" ++ id
id-ne-repeat_id id e = omega (arith, ap len e, len-append "repeat:" id)

module _ (h t : String) where
  pub repeat_job_id-ne-repeat_hash : repeat_job_id h t ≢ "repeat:" ++ h
  unfolding repeat_job_id
  repeat_job_id-ne-repeat_hash e = omega (
    arith,
    ap len (append_cancel_left "repeat:" (h ++ (":" ++ t)) h e),
    len-append h (":" ++ t),
    len-append ":" t,
  )

  pub repeat_id-ne-repeat_hash : "repeat:" ++ repeat_job_id h t ≢ "repeat:" ++ h
  unfolding repeat_job_id
  repeat_id-ne-repeat_hash e = omega (
    arith,
    ap len (append_cancel_left "repeat:" (repeat_job_id h t) h e),
    len-append "repeat:" (h ++ (":" ++ t)),
    len-append h (":" ++ t),
    len-append ":" t,
  )
