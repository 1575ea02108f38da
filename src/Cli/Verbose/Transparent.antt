-- ===== src/Cli/Verbose/Transparent.antt =====
-- cmd/yaasa/main.go: what the commands do under `--verbose`, in the whole tree.
use yaasa_go.Prelude.{
  ℕ, zero, suc, ◌-◌, List, [], ◌∷◌, ◌++◌, Option, none, some, Bool, true, false, ◌≡◌, refl,
  if◌then◌else◌, Text, String, append_assoc, append-nil, ap, sym,
}
use yaasa_go.Result.{Result, ok, M}
use yaasa_go.Cli.Verbose.{
  Entry, started, ended, Logged, Command, Tree, node, Forest, no_child, child, status,
  wrap_verbose_command_logging, install_all, install_verbose_command_logging, wrapped_run_e,
  wrapped_run,
}

-- The command at a place: the number of the child at each level.
unfoldable pub command_below : {S : Type 0} → List ℕ → Forest S → Option (Command S)
command_below place no_child = none
command_below [] (child t later) = none
command_below (zero ∷ []) (child (node c below) later) = some c
command_below (zero ∷ i ∷ place) (child (node c below) later) = command_below (i ∷ place) below
command_below (suc i ∷ place) (child (node c below) later) = command_below (i ∷ place) later

abbrev pub command_in : {S : Type 0} → List ℕ → Tree S → Option (Command S)
command_in [] (node c below) = some c
command_in place (node c below) = command_below place below

-- Both are missing, or both are there and related.
abbrev pub BothOr : {A B : Type 0} → (A → B → Type 0) → Option A → Option B → Type 0
BothOr R none none = Unit
BothOr R (some a) (some b) = R a b
BothOr R _ _ = ⊥

module _ {S : Type 0} (clock : S → ℕ) (flag_verbose : Bool) where
  -- What a call adds to the log: nothing without the flag, and else its start and its end, with the
  -- outcome and the times at which the function was entered and had returned.
  abbrev pub lines_of : String → List Text → S → Result (Unit {0}) → S → List Entry
  lines_of path args before r after =
      if flag_verbose
      then started path args (clock before)
        ∷ ended path (status r) (clock after) (clock after - clock before)
        ∷ []
      else []

  -- The second function does what the first does, and logs it.
  abbrev pub LogsOf :
      String → (List Text → M S (Unit {0})) → (List Text → M (Logged S) (Unit {0})) → Type 0
  LogsOf path m m' =
      (args : List Text) (s : Logged S)
      → m' args s ≡ (
        (m args s.inner).0,
        record {
          inner = (m args s.inner).1;
          entries = s.entries ++ lines_of path args s.inner (m args s.inner).0 (m args s.inner).1;
        },
      )

  abbrev pub LogsRun : String → (List Text → S → S) → (List Text → Logged S → Logged S) → Type 0
  LogsRun path m m' =
      (args : List Text) (s : Logged S)
      → m' args s ≡ record {
        inner = m args s.inner;
        entries = s.entries ++ lines_of path args s.inner (ok tt) (m args s.inner);
      }

  -- The function that is called of the second command, `RunE` if there is one, logs what that of the
  -- first does.
  abbrev pub Verbosely : Command S → Command (Logged S) → Type 0
  Verbosely c c' =
      (c'.path ≡ c.path)
      × (BothOr (LogsOf c.path) c.run_e c'.run_e
          × (c.run_e ≡ none → BothOr (LogsRun c.path) c.run c'.run))

module _ {S : Type 0} (clock : S → ℕ) where
  wrapped_run_e-LogsOf :
      (v : Bool) (path : String) (m : List Text → M S (Unit {0}))
      → LogsOf clock v path m (wrapped_run_e clock v path m)
  wrapped_run_e-LogsOf true path m args s =
      ap (λ l. ((m args s.inner).0, record { inner = (m args s.inner).1; entries = l }))
        (append_assoc s.entries (_ ∷ []) (_ ∷ []))
  wrapped_run_e-LogsOf false path m args s =
      ap (λ l. ((m args s.inner).0, record { inner = (m args s.inner).1; entries = l }))
        (sym (append-nil s.entries))

  wrapped_run-LogsRun :
      (v : Bool) (path : String) (m : List Text → S → S)
      → LogsRun clock v path m (wrapped_run clock v path m)
  wrapped_run-LogsRun true path m args s =
      ap (λ l. record { inner = m args s.inner; entries = l })
        (append_assoc s.entries (_ ∷ []) (_ ∷ []))
  wrapped_run-LogsRun false path m args s =
      ap (λ l. record { inner = m args s.inner; entries = l }) (sym (append-nil s.entries))

  functions-Verbosely :
      (v : Bool) (path : String) (run_e : Option (List Text → M S (Unit {0})))
      (run : Option (List Text → S → S))
      → Verbosely clock v
          (record { path = path; run_e = run_e; run = run })
          (wrap_verbose_command_logging clock v (record { path = path; run_e = run_e; run = run }))
  unfolding wrap_verbose_command_logging
  functions-Verbosely v path (some m) run = (refl, (wrapped_run_e-LogsOf v path m, λ e. cc))
  functions-Verbosely v path none (some m) = (refl, (tt, λ e. wrapped_run-LogsRun v path m))
  functions-Verbosely v path none none = (refl, (tt, λ e. tt))

  below-Verbosely :
      (v : Bool) (place : List ℕ) (f : Forest S)
      → BothOr
          (Verbosely clock v)
          (command_below place f)
          (command_below place (install_all clock v f))
  unfolding command_below install_all
  below-Verbosely v place no_child = tt
  below-Verbosely v [] (child (node c below) later) = tt
  below-Verbosely v (zero ∷ []) (child (node c below) later) =
      functions-Verbosely v c.path c.run_e c.run
  below-Verbosely v (zero ∷ i ∷ place) (child (node c below) later) =
      below-Verbosely v (i ∷ place) below
  below-Verbosely v (suc i ∷ place) (child (node c below) later) =
      below-Verbosely v (i ∷ place) later

  -- `--verbose` is transparent: at every place below the root of the tree there is a command in it
  -- with the flag installed just if there is one without, of the same path, whose function has the
  -- same result and effect and adds to the log, only under the flag, its start and its end with its
  -- outcome.
  pub install-Verbosely :
      (v : Bool) (i : ℕ) (place : List ℕ) (t : Tree S)
      → BothOr
          (Verbosely clock v)
          (command_in (i ∷ place) t)
          (command_in (i ∷ place) (install_verbose_command_logging clock v t))
  unfolding install_verbose_command_logging
  install-Verbosely v i place (node c below) = below-Verbosely v (i ∷ place) below
