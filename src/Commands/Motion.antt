-- ===== src/Commands/Motion.antt =====
-- desk/commands.go: what the operations write and what they leave alone.
use yaasa_go.Prelude.{
  ℕ, zero, suc, ◌^◌, ◌<◌, ◌≡◌, ◌≢◌, ◌⊎◌, inl, inr, refl, ap, ◌∙◌, sym, List, [], ◌∷◌, ◌++◌, All,
  All-append, append_assoc, append-nil, some, arith, String, Bytes,
}
use yaasa_go.Prelude.Int.{ℤ, pos}
use yaasa_go.Result.{Result, ok, err, M, wrap, wrap_result, unsupported_preset, and_then}
use yaasa_go.Float.{FloatOps, IsFloat64}
use yaasa_go.Height.{millimetre_bytes, put_uint16}
use yaasa_go.Height.Encoding.{millimetre_bytes-of_nat}
use yaasa_go.Packet.{make_command, decode_response}
use yaasa_go.Packet.Frame.{frame}
use yaasa_go.Packet.Recover.{packet}
use yaasa_go.Desk.{Desk, Action, tx, sleep, write, pause, decode_height_notification}
use yaasa_go.Desk.Notify.{decode_height_payload-put_uint16, decode_responses-height}
use yaasa_go.Commands.{
  wake, wake_rounds, go_preset, save_preset, move_to_height, op_wake, op_move_to,
}

-- What `Wake` does.
abbrev pub IsWaking : Action → Type 0
IsWaking b = (b ≡ tx (make_command op_wake [])) ⊎ (b ≡ sleep 100)

module _ {F : Type 0} where
  -- Between two states a desk did only actions of one kind, and nothing else of it changed.
  pub record Effect (P : Action → Type 0) (d d' : Desk F) : Type 0 where
    pub added : List Action
    pub log_is : d'.conn.log ≡ d.conn.log ++ added
    pub added_all : All P added
    pub rest_kept : d' ≡ record d { conn = d'.conn }

  pub Effect-refl : (P : Action → Type 0) (d : Desk F) → Effect P d d
  Effect-refl P d = record {
    added = [];
    log_is = sym (append-nil d.conn.log);
    added_all = tt;
    rest_kept = refl;
  }

  pub Effect-trans :
      (P : Action → Type 0) (d e f : Desk F) → Effect P d e → Effect P e f → Effect P d f
  Effect-trans P d e f x y = record {
    added = x.added ++ y.added;
    log_is = y.log_is ∙ ap (λ l. l ++ y.added) x.log_is ∙ append_assoc d.conn.log x.added y.added;
    added_all = All-append P x.added y.added x.added_all y.added_all;
    rest_kept = y.rest_kept ∙ ap (λ (g : Desk F). record g { conn = f.conn }) x.rest_kept;
  }

  pub write-Effect :
      (P : Action → Type 0) (pkt : Bytes) (d : Desk F) → P (tx pkt) → Effect P d (write pkt d).1
  write-Effect P pkt d p = record {
    added = tx pkt ∷ [];
    log_is = refl;
    added_all = (p, tt);
    rest_kept = refl;
  }

  pub wrap-Effect :
      {A : Type 0} (P : Action → Type 0) (text : String) (x : Result A × Desk F) (d : Desk F)
      → Effect P d x.1
      → Effect P d (wrap_result text x).1
  wrap-Effect P text (ok _, e) d h = h
  wrap-Effect P text (err _, e) d h = h

  then-Effect :
      {A B : Type 0} (P : Action → Type 0) (x : Result A × Desk F) (k : A → M (Desk F) B)
      (d : Desk F)
      → Effect P d x.1
      → ((y : A) (e : Desk F) → Effect P e (k y e).1)
      → Effect P d (and_then x k).1
  then-Effect P (ok y, e) k d h later = Effect-trans P d e _ h (later y e)
  then-Effect P (err _, e) k d h later = h

  pub wake_rounds-Effect : (n : ℕ) (d : Desk F) → Effect IsWaking d (wake_rounds n d).1
  unfolding wake_rounds
  wake_rounds-Effect zero d = Effect-refl IsWaking d
  wake_rounds-Effect (suc n) d =
      then-Effect IsWaking (wrap "wake" (write (make_command op_wake [])) d) _ d
        (wrap-Effect IsWaking "wake" (write (make_command op_wake []) d) d
          (write-Effect IsWaking _ d (inl refl)))
        (λ y e.
          Effect-trans IsWaking e (pause 100 e).1 _
            (record {
              added = sleep 100 ∷ [];
              log_is = refl;
              added_all = (inr refl, tt);
              rest_kept = refl;
            })
            (wake_rounds-Effect n (pause 100 e).1))

  pub wake-Effect : (d : Desk F) → Effect IsWaking d (wake d).1
  unfolding wake
  wake-Effect d = wake_rounds-Effect 3 d

  -- The commands for a preset other than 1 and 2 write nothing and say so.
  pub preset_refused :
      (n : ℤ) (d : Desk F)
      → n ≢ pos 1
      → n ≢ pos 2
      → (go_preset n d ≡ (err (unsupported_preset n), d))
        × (save_preset n d ≡ (err (unsupported_preset n), d))
  unfolding go_preset save_preset
  preset_refused n d h k = ground arith

module _ {F : Type 0} ⦃o : FloatOps F⦄ (laws : IsFloat64 o) where
  -- To move to a whole height below 2 ^ 16 mm one frame is written, and its payload is the one by
  -- which a desk at that height reports it: as a height report it decodes to the target.
  pub move_to_height-report :
      (n : ℕ) (d : Desk F)
      → n < 2 ^ 16
      → let p = millimetre_bytes (o.of_nat n) in
        ((move_to_height (o.of_nat n) d).1.conn.log
          ≡ d.conn.log ++ tx (make_command op_move_to p) ∷ [])
        × (decode_height_notification (frame (packet 0x01 (p ++ 0 ∷ []))) ≡ some (o.of_nat n))
  unfolding move_to_height decode_height_notification decode_response
  move_to_height-report n d h = rw (millimetre_bytes-of_nat laws n h) (
    unfold put_uint16 in refl,
    rw (decode_responses-height n) (decode_height_payload-put_uint16 n h),
  )
