-- ===== src/Start/Order.antt =====
-- The order of the calls of main, on a machine that writes them down.
use agentx_proxy.Prelude.{
  ℕ, Bool, true, false, Option, List, [], ◌∷◌, ◌++◌, ap, append-nil, append_assoc, return, handling,
  ◌≡◌, refl, ◌⊎◌, inl, inr, Bytes, Outcome, ok, err, failed, Action,
}
use agentx_proxy.Config.{Config}
use agentx_proxy.Start.{
  Server, postgresql, clickhouse_native, clickhouse_http, Machine, started_if, until_signal,
  setup_logger, close_if, main,
}

pub data Call : Type 0 where
  loads_config sets_logger makes_pool makes_schema waits cancels closes_pool : Call
  makes serves closes : Server → Call

-- Which of the calls that return an error fail.
pub record Faults : Type 0 where
  pub config : Bool
  pub pool : Bool
  pub schema : Bool
  pub made_postgresql : Bool
  pub made_native : Bool
  pub made_http : Bool
  pub closed : Server → Bool
  pub closed_pool : Bool

abbrev pub made : Faults → Server → Bool
made f postgresql = f.made_postgresql
made f clickhouse_native = f.made_native
made f clickhouse_http = f.made_http

unfoldable pub written : {A : Type 0} → Call → Bool → A → Action (List Call) A
written call true a log = (err (failed []), log ++ call ∷ [])
written call false a log = (ok a, log ++ call ∷ [])

abbrev pub writing : Config → Faults → Machine
writing cfg f = record {
  World = List Call;
  read_config = λ path. written loads_config f.config cfg;
  set_logger = λ level json. written sets_logger false tt;
  new_pool = λ c. written makes_pool f.pool tt;
  create_schema = λ c. written makes_schema f.schema tt;
  new_server = λ s c. written (makes s) (made f s) tt;
  serve = λ s. written (serves s) false tt;
  wait_signal = written waits false tt;
  cancel = written cancels false tt;
  close_server = λ s. written (closes s) (f.closed s) tt;
  close_pool = written closes_pool f.closed_pool tt;
}

abbrev if_on : Bool → List Call → List Call
if_on true calls = calls
if_on false calls = []

-- All calls in their order, for the servers that are enabled.
unfoldable pub in_full : Bool → Bool → List Call
in_full pg ch =
    loads_config
    ∷ sets_logger
    ∷ makes_pool
    ∷ makes_schema
    ∷ (if_on pg (makes postgresql ∷ serves postgresql ∷ [])
        ++ (if_on ch (
              makes clickhouse_native
              ∷ serves clickhouse_native
              ∷ makes clickhouse_http
              ∷ serves clickhouse_http
              ∷ [])
            ++ (waits
                ∷ cancels
                ∷ (if_on pg (closes postgresql ∷ [])
                    ++ (if_on ch (closes clickhouse_native ∷ closes clickhouse_http ∷ [])
                        ++ (closes_pool ∷ cancels ∷ []))))))

-- Are all of `calls` at the start of `all`, and not all of them?
pub record CutShort (calls all : List Call) : Type 0 where
  pub next_call : Call
  pub missing : List Call
  pub all_calls : calls ++ next_call ∷ missing ≡ all

abbrev pub Ordered : List Call → Outcome ℕ × List Call → Type 0
Ordered all (r, log) = ((r ≡ ok 0) × (log ≡ all)) ⊎ ((r ≡ ok 1) × CutShort log all)

abbrev pub with_servers : Bool → Bool → Config → Config
with_servers pg ch cfg = record cfg {
  proxy = record cfg.proxy {
    pg_to_mysql = record cfg.proxy.pg_to_mysql { enabled = pg };
    ch_to_mysql = record cfg.proxy.ch_to_mysql { enabled = ch };
  };
}

short :
    (calls : List Call) (c : Call) (rest all : List Call)
    → calls ++ c ∷ rest ≡ all
    → CutShort calls all
short calls c rest all e = record { next_call = c; missing = rest; all_calls = e }

-- The error of a Close is passed over.
ignored_log :
    (c : Call) (b : Bool) (log : List Call)
    → handling (written c b tt) (λ e. return tt) return log ≡ (ok tt, log ++ c ∷ [])
unfolding written
ignored_log c true log = refl
ignored_log c false log = refl

close-log :
    (cfg : Config) (f : Faults) (on : Bool) (s : Server) (log : List Call)
    → close_if (writing cfg f) on s log ≡ (ok tt, log ++ if_on on (closes s ∷ []))
unfolding close_if written
close-log cfg f false s log = rw append-nil
close-log cfg f true s log = ignored_log (closes s) (f.closed s) log

flat :
    (l a b c d e f g : List Call)
    → ((((((l ++ a) ++ b) ++ c) ++ d) ++ e) ++ f) ++ g
      ≡ l ++ (a ++ (b ++ (c ++ (d ++ (e ++ (f ++ g))))))
flat l a b c d e f g = simp append_assoc

-- The calls from the signal on, of which none ends the process.
until_signal-log :
    (pg ch : Bool) (cfg : Config) (f : Faults) (log : List Call)
    → until_signal (writing (with_servers pg ch cfg) f) (with_servers pg ch cfg) log ≡ (
      ok 0,
      log
          ++ (waits
              ∷ cancels
              ∷ (if_on pg (closes postgresql ∷ [])
                  ++ (if_on ch (closes clickhouse_native ∷ [])
                      ++ (if_on ch (closes clickhouse_http ∷ [])
                          ++ (closes_pool ∷ cancels ∷ []))))),
    )
unfolding until_signal written
until_signal-log pg ch cfg f log =
    let c = with_servers pg ch cfg in
    rw
      (
        close-log c f pg postgresql,
        close-log c f ch clickhouse_native,
        close-log c f ch clickhouse_http,
        ignored_log closes_pool f.closed_pool,
      )
      (ap (λ l. (ok 0, l))
        (flat log (waits ∷ []) (cancels ∷ []) (if_on pg (closes postgresql ∷ []))
          (if_on ch (closes clickhouse_native ∷ [])) (if_on ch (closes clickhouse_http ∷ []))
          (closes_pool ∷ []) (cancels ∷ [])))

in_order : (all : List Call) (p : Outcome ℕ × List Call) → p ≡ (ok 0, all) → Ordered all p
in_order all (r, log) e = inl (ap (λ p. p.0) e, ap (λ p. p.1) e)

-- The calls up to the signal.
abbrev before_signal : Bool → Bool → List Call
before_signal pg ch =
    loads_config
    ∷ sets_logger
    ∷ makes_pool
    ∷ makes_schema
    ∷ (if_on pg (makes postgresql ∷ serves postgresql ∷ [])
        ++ if_on ch (
            makes clickhouse_native
            ∷ serves clickhouse_native
            ∷ makes clickhouse_http
            ∷ serves clickhouse_http
            ∷ []))

abbrev with_faults : Faults → Bool → Bool → Bool → Bool → Bool → Bool → Faults
with_faults f a b c d e g = record f {
  config = a;
  pool = b;
  schema = c;
  made_postgresql = d;
  made_native = e;
  made_http = g;
}

-- Whatever fails, the Close of a server or of the pool included: main goes through all of its calls in
-- their order and returns, or it ends with exit code 1 before the last of them, with all calls up to there
-- made in that order.
pub main-Ordered :
    (variable : Option Bytes) (pg ch : Bool) (cfg : Config) (f : Faults)
    → Ordered (in_full pg ch) (main (writing (with_servers pg ch cfg) f) variable [])
unfolding main written in_full started_if setup_logger
main-Ordered variable pg ch cfg f =
    by_faults pg ch f.config f.pool f.schema f.made_postgresql f.made_native f.made_http
  where
    by_faults :
        (pg ch a b c d e g : Bool)
        → Ordered
            (in_full pg ch)
            (main (writing (with_servers pg ch cfg) (with_faults f a b c d e g)) variable [])
    by_faults pg ch true b c d e g = inr (refl, short _ sets_logger _ _ refl)
    by_faults pg ch false true c d e g = inr (refl, short _ makes_schema _ _ refl)
    by_faults true ch false false true d e g = inr (refl, short _ (makes postgresql) _ _ refl)
    by_faults false true false false true d e g =
        inr (refl, short _ (makes clickhouse_native) _ _ refl)
    by_faults false false false false true d e g = inr (refl, short _ waits _ _ refl)
    by_faults true ch false false false true e g = inr (refl, short _ (serves postgresql) _ _ refl)
    by_faults true true false false false false true g =
        inr (refl, short _ (serves clickhouse_native) _ _ refl)
    by_faults true true false false false false false true =
        inr (refl, short _ (serves clickhouse_http) _ _ refl)
    by_faults true true false false false false false false = in_order _ _ (
        until_signal-log true true cfg (with_faults f false false false false false false)
          (before_signal true true))
    by_faults true false false false false false e g = in_order _ _ (
        until_signal-log true false cfg (with_faults f false false false false e g)
          (before_signal true false))
    by_faults false true false false false d true g =
        inr (refl, short _ (serves clickhouse_native) _ _ refl)
    by_faults false true false false false d false true =
        inr (refl, short _ (serves clickhouse_http) _ _ refl)
    by_faults false true false false false d false false = in_order _ _ (
        until_signal-log false true cfg (with_faults f false false false d false false)
          (before_signal false true))
    by_faults false false false false false d e g = in_order _ _ (
        until_signal-log false false cfg (with_faults f false false false d e g)
          (before_signal false false))
