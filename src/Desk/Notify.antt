-- ===== src/Desk/Notify.antt =====
-- handleNotification of desk/desk.go: what a buffer of packets does to the caches and which
-- callbacks it runs.
mod Calls
pub use yaasa_go.Desk.Notify.Calls.{
  with_some, last_or, any_seen, fan_out, stats_of, height_calls, stats_calls, height_packet,
  decode_responses-height,
}
use yaasa_go.Desk.Notify.Calls.{
  height_calls-append, stats_calls-append, height_calls-heights, height_calls-stats,
  stats_calls-heights, stats_calls-stats, any_seen-true,
}
use yaasa_go.Prelude.{
  ℕ, ◌+◌, ◌*◌, ◌/◌, ◌%◌, ◌^◌, ◌<◌, ◌≡◌, refl, sym, ap, ◌∙◌, Bool, true, List, [], ◌∷◌, ◌++◌, map,
  Option, none, some, arith, Bytes, append-nil, Option-cases, inl, inr,
}
use yaasa_go.Float.{FloatOps}
use yaasa_go.Height.{put_uint16}
use yaasa_go.Packet.{Notification, decode_responses}
use yaasa_go.Packet.Frame.{frame}
use yaasa_go.Packet.Decode.{decode_responses-frames}
use yaasa_go.Packet.Recover.{packet}
use yaasa_go.Stats.{SitStandTime, decode_sit_stand_time}
use yaasa_go.Desk.{
  Desk, Call, height_call, stats_call, decode_height_payload, handle_packet, handle_packets,
  handle_notification,
}

module _ {F : Type 0} ⦃o : FloatOps F⦄ where
  -- The heights that some packets report, in order.
  abbrev pub heights_of : List Notification → List F
  heights_of [] = []
  heights_of (n ∷ ns) = with_some (decode_height_payload n.opcode n.payload) (heights_of ns)

  -- What handling some packets changes, and what it leaves.
  pub record Handled (ns : List Notification) (d d' : Desk F) (calls : List (Call F)) : Type 0 where
    pub height : d'.last_height ≡ last_or d.last_height (heights_of ns)
    pub has_height : d'.has_height ≡ any_seen d.has_height (heights_of ns)
    pub stats : d'.last_stats ≡ last_or d.last_stats (stats_of ns)
    pub has_stats : d'.has_stats ≡ any_seen d.has_stats (stats_of ns)
    pub listeners_kept : d'.listeners ≡ d.listeners
    pub stats_listeners_kept : d'.stats_listeners ≡ d.stats_listeners
    pub conn_kept : d'.conn ≡ d.conn
    pub height_called : height_calls calls ≡ fan_out d.listeners (heights_of ns)
    pub stats_called : stats_calls calls ≡ fan_out d.stats_listeners (stats_of ns)

  height_is_no_stats :
      (n : Notification) (h : F)
      → decode_height_payload n.opcode n.payload ≡ some h
      → decode_sit_stand_time n.opcode n.payload ≡ none
  unfolding decode_height_payload decode_sit_stand_time
  height_is_no_stats n h e = ground arith

  Handled-height :
      (n : Notification) (ns : List Notification) (h : F) (d d' : Desk F) (later : List (Call F))
      → decode_height_payload n.opcode n.payload ≡ some h
      → Handled ns (record d { last_height = h; has_height = true }) d' later
      → Handled (n ∷ ns) d d' (map (λ l. height_call l h) d.listeners ++ later)
  Handled-height n ns h d d' later e r =
      let no_stats = height_is_no_stats n h e in
      record {
        height = rw e r.height;
        has_height = rw e (r.has_height ∙ any_seen-true (heights_of ns));
        stats = rw no_stats r.stats;
        has_stats = rw no_stats r.has_stats;
        listeners_kept = r.listeners_kept;
        stats_listeners_kept = r.stats_listeners_kept;
        conn_kept = r.conn_kept;
        height_called = rw (
          e,
          height_calls-append (map (λ l. height_call l h) d.listeners) later,
          height_calls-heights d.listeners h,
          r.height_called,
        );
        stats_called = rw (
          no_stats,
          stats_calls-append (map (λ l. height_call l h) d.listeners) later,
          stats_calls-heights d.listeners h,
          r.stats_called,
        );
      }

  Handled-stats :
      (n : Notification) (ns : List Notification) (s : SitStandTime) (d d' : Desk F)
      (later : List (Call F))
      → decode_height_payload {F = F} n.opcode n.payload ≡ none
      → decode_sit_stand_time n.opcode n.payload ≡ some s
      → Handled ns (record d { last_stats = s; has_stats = true }) d' later
      → Handled (n ∷ ns) d d' (map (λ l. stats_call l s) d.stats_listeners ++ later)
  Handled-stats n ns s d d' later e e' r = record {
    height = rw e r.height;
    has_height = rw e r.has_height;
    stats = rw e' r.stats;
    has_stats = rw e' (r.has_stats ∙ any_seen-true (stats_of ns));
    listeners_kept = r.listeners_kept;
    stats_listeners_kept = r.stats_listeners_kept;
    conn_kept = r.conn_kept;
    height_called = rw (
      e,
      height_calls-append (map (λ l. stats_call l s) d.stats_listeners) later,
      height_calls-stats d.stats_listeners s,
      r.height_called,
    );
    stats_called = rw (
      e',
      stats_calls-append (map (λ l. stats_call l s) d.stats_listeners) later,
      stats_calls-stats F d.stats_listeners s,
      r.stats_called,
    );
  }

  Handled-other :
      (n : Notification) (ns : List Notification) (d d' : Desk F) (later : List (Call F))
      → decode_height_payload {F = F} n.opcode n.payload ≡ none
      → decode_sit_stand_time n.opcode n.payload ≡ none
      → Handled ns d d' later
      → Handled (n ∷ ns) d d' later
  Handled-other n ns d d' later e e' r = record {
    height = rw e r.height;
    has_height = rw e r.has_height;
    stats = rw e' r.stats;
    has_stats = rw e' r.has_stats;
    listeners_kept = r.listeners_kept;
    stats_listeners_kept = r.stats_listeners_kept;
    conn_kept = r.conn_kept;
    height_called = rw e r.height_called;
    stats_called = rw e' r.stats_called;
  }

  pub handle_packets-Handled :
      (ns : List Notification) (d : Desk F)
      → Handled ns d (handle_packets ns d).0 (handle_packets ns d).1
  unfolding handle_packets handle_packet
  handle_packets-Handled [] d = record {
    height = refl;
    has_height = refl;
    stats = refl;
    has_stats = refl;
    listeners_kept = refl;
    stats_listeners_kept = refl;
    conn_kept = refl;
    height_called = refl;
    stats_called = refl;
  }
  handle_packets-Handled (n ∷ ns) d =
      elim (Option-cases (decode_height_payload {F = F} n.opcode n.payload)) [
        | inr (h, e) ↦
            rw (e, handle_packets, handle_packet)
              (Handled-height n ns h d _ _ e
                (handle_packets-Handled ns (record d { last_height = h; has_height = true })))
        | inl e ↦ elim (Option-cases (decode_sit_stand_time n.opcode n.payload)) [
          | inr (s, e') ↦
              rw (e, e', handle_packets, handle_packet)
                (Handled-stats n ns s d _ _ e e'
                  (handle_packets-Handled ns (record d { last_stats = s; has_stats = true })))
          | inl e' ↦
              rw (e, e', handle_packets, handle_packet)
                (Handled-other n ns d _ _ e e' (handle_packets-Handled ns d))
        ]
      ]

  -- A notification buffer leaves in each cache the last value that its packets report, if any, and
  -- keeps the cache otherwise; each reported value goes once to each listener of its kind, in order
  -- of the packets and then of registration; listeners and connection are kept.
  pub handle_notification-Handled :
      (buf : Bytes) (d : Desk F)
      → Handled (decode_responses buf) d (handle_notification buf d).0 (handle_notification buf d).1
  unfolding handle_notification
  handle_notification-Handled buf d = handle_packets-Handled (decode_responses buf) d

  pub decode_height_payload-put_uint16 :
      (n : ℕ) → n < 2 ^ 16 → decode_height_payload 0x01 (put_uint16 n ++ 0 ∷ []) ≡ some (o.of_nat n)
  unfolding decode_height_payload put_uint16
  decode_height_payload-put_uint16 n h =
      let joined : n / 256 % 256 * 256 + n % 256 ≡ n = omega arith in
      ap (λ k. some (o.of_nat k)) joined

  -- A height report of `n` millimetres is cached and given once to each height listener, and
  -- nothing else happens.
  pub handle_notification-height :
      (n : ℕ) (d : Desk F)
      → n < 2 ^ 16
      → handle_notification (frame (height_packet n)) d ≡ (
        record d { last_height = o.of_nat n; has_height = true },
        map (λ l. height_call l (o.of_nat n)) d.listeners,
      )
  unfolding handle_notification
  handle_notification-height n d h =
      rw
        (
          decode_responses-height n,
          handle_packets,
          handle_packet,
          decode_height_payload-put_uint16 n h,
        )
        (ap (λ cs. (record d { last_height = o.of_nat n; has_height = true }, cs))
          (append-nil (map (λ l. height_call l (o.of_nat n)) d.listeners)))
