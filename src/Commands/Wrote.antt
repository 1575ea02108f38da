-- ===== src/Commands/Wrote.antt =====
-- desk/commands.go: what a desk was sent in the course of a longer operation.
use yaasa_go.Prelude.{
  List, [], ◌∷◌, ◌++◌, ◌≡◌, ap, sym, ◌∙◌, All, All-append, append_assoc, append-nil,
}
use yaasa_go.Result.{ignore}
use yaasa_go.Packet.{make_command}
use yaasa_go.Desk.{Desk, Action, tx}
use yaasa_go.Commands.{stop, op_stop}
use yaasa_go.Commands.Motion.{Effect, write-Effect}

pub All-mono :
    (P Q : Action → Type 0) (bs : List Action) → ((b : Action) → P b → Q b) → All P bs → All Q bs
All-mono P Q [] f h = tt
All-mono P Q (b ∷ bs) f h = (f b h.0, All-mono P Q bs f h.1)

module _ {F : Type 0} where
  -- What a desk was sent since an earlier state.
  pub record Wrote (P : Action → Type 0) (d e : Desk F) : Type 0 where
    pub added : List Action
    pub log_is : e.conn.log ≡ d.conn.log ++ added
    pub added_all : All P added

  pub Wrote-Effect :
      (P : Action → Type 0) (d e f : Desk F) → Wrote P d e → Effect P e f → Wrote P d f
  Wrote-Effect P d e f v x = record {
    added = v.added ++ x.added;
    log_is = x.log_is ∙ ap (λ l. l ++ x.added) v.log_is ∙ append_assoc d.conn.log v.added x.added;
    added_all = All-append P v.added x.added v.added_all x.added_all;
  }

  pub Wrote-conn :
      (P : Action → Type 0) (d e f : Desk F) → f.conn ≡ e.conn → Wrote P d e → Wrote P d f
  Wrote-conn P d e f h v = record {
    added = v.added;
    log_is = rw h v.log_is;
    added_all = v.added_all;
  }

  pub Wrote-refl : (P : Action → Type 0) (d : Desk F) → Wrote P d d
  Wrote-refl P d = record { added = []; log_is = sym (append-nil d.conn.log); added_all = tt }

  pub Wrote-trans : (P : Action → Type 0) (d e f : Desk F) → Wrote P d e → Wrote P e f → Wrote P d f
  Wrote-trans P d e f v x = record {
    added = v.added ++ x.added;
    log_is = x.log_is ∙ ap (λ l. l ++ x.added) v.log_is ∙ append_assoc d.conn.log v.added x.added;
    added_all = All-append P v.added x.added v.added_all x.added_all;
  }

  pub Wrote-mono :
      (P Q : Action → Type 0) (d e : Desk F)
      → ((b : Action) → P b → Q b)
      → Wrote P d e
      → Wrote Q d e
  Wrote-mono P Q d e f v = record {
    added = v.added;
    log_is = v.log_is;
    added_all = All-mono P Q v.added f v.added_all;
  }

  pub Wrote-of : (P : Action → Type 0) (d e : Desk F) → Effect P d e → Wrote P d e
  Wrote-of P d e x = record { added = x.added; log_is = x.log_is; added_all = x.added_all }

  pub stop-Effect :
      (P : Action → Type 0) (e : Desk F)
      → P (tx (make_command op_stop []))
      → Effect P e (ignore stop e).1
  unfolding stop
  stop-Effect P e h = write-Effect P (make_command op_stop []) e h

  pub Effect-mono :
      (P Q : Action → Type 0) (d e : Desk F)
      → ((b : Action) → P b → Q b)
      → Effect P d e
      → Effect Q d e
  Effect-mono P Q d e f x = record {
    added = x.added;
    log_is = x.log_is;
    added_all = All-mono P Q x.added f x.added_all;
    rest_kept = x.rest_kept;
  }
