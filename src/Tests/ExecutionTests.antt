-- ===== src/Tests/ExecutionTests.antt =====
-- The execution service on a terminal that answers from a list of replies.
use vix_75_platform.Base.{
  ℕ, ◌≡◌, refl, String, false, Option, none, some, List, [], ◌∷◌, format, cut,
}
use vix_75_platform.Base.Dict.{Dict, text_eq}
use vix_75_platform.Base.Int.{ℤ, pos}
use vix_75_platform.Base.Result.{ok, raise, type_error, assertion_error}
use vix_75_platform.Json.{JsonLib, text}
use vix_75_platform.Schemas.{OrderRequest, buy}
use vix_75_platform.Schemas.Uuid.{uuid_from_hex}
use vix_75_platform.Execution.Executor.{
  Request, SendResult, Terminal, Executor, ExecOutcome, max_attempts, is_done, is_retryable,
  describe_retcode,
}
use vix_75_platform.Execution.Executor.Attempts.{execute, build_request, get_tick, judge, attempt}
use vix_75_platform.Execution.Executor.Attempts.Retry.{IsSettled, execute-IsSettled}
use vix_75_platform.Execution.Trades.{insert_pending, set_status, audit}
use vix_75_platform.Execution.Consumer.{
  ExecutionConsumer, Message, handle, handle_all, record_outcome,
}
use vix_75_platform.Execution.Orders.{result_key, parse_order, ExecutionEnv}
use vix_75_platform.Execution.Consumer.Once.{called, Ran, handle-Ran}
use vix_75_platform.Execution.Consumer.Batch.{RanOnce, handle_all_once}
use vix_75_platform.Execution.Trades.Rows.{KeepsRows}
use vix_75_platform.Execution.Consumer.Lost.{IsLost, handle-IsLost}
use vix_75_platform.Tests.Decimal.{decimal}
use vix_75_platform.Tests.Store.{Keyspace, empty, keyspace_redis}

abbrev Replies : Type 0
Replies = List (Option (SendResult ℤ))

abbrev answer : Replies → Option (SendResult ℤ) × Replies
answer [] = (none, [])
answer (r ∷ rs) = (r, rs)

instance abbrev replies_terminal : Terminal ℤ Replies
replies_terminal = record {
  symbol_info_tick = λ _ _. some (record { bid = pos 49990; ask = pos 50010 });
  order_send = λ _ t. answer t;
  last_error = λ _. "";
}

abbrev reply : ℕ → Option (SendResult ℤ)
reply code = some (record { retcode = code; order = 7; price = pos 50010; comment = "" })

abbrev order : OrderRequest ℤ
order = record {
  idempotency_key = "k1";
  signal_id = "0123456789abcdef0123456789abcdef";
  symbol = "V75";
  direction = buy;
  lots = pos 50;
  entry = pos 50000;
  sl = pos 49000;
  tp = pos 52000;
  deviation_points = 30;
}

abbrev request : Request ℤ
request = record {
  symbol = "V75";
  volume = pos 50;
  kind = buy;
  price = pos 50010;
  sl = pos 49000;
  tp = pos 52000;
  deviation = 30;
  magic = 75;
  comment = "vix75:k1";
}

-- A requote, then a fill.
abbrev requoted : Replies
requoted = reply 10004 ∷ reply 10009 ∷ []

abbrev executor : Replies → Executor ℤ Replies
executor t = record {
  terminal = some t;
  dry_run_mode = false;
  magic = 75;
  backoff_base_s = pos 50;
  sends = [];
  sleeps = [];
}

build_order : build_request (executor requoted) order none requoted ≡ ok request
unfolding build_request get_tick format cut
build_order = refl

execute-IsSettled_example :
    (o : ExecOutcome ℤ) × ((execute 0 (executor requoted) order).0 ≡ ok o)
    × IsSettled request max_attempts 0 requoted [] o (execute 0 (executor requoted) order).1
execute-IsSettled_example =
    execute-IsSettled request order 0 (executor requoted) requoted refl refl build_order

instance abbrev order_documents : JsonLib ℤ
order_documents = record {
  dumps = λ _. "document";
  loads = λ _. ok (("order", text "k1") ∷ []);
  parse_float = λ _. raise type_error;
  parse_int = λ _. raise type_error;
  trunc = λ x. pos 30;
}

abbrev env : ExecutionEnv ℤ
env = record { validate_order = λ _. some order; fresh_id = "c"; now = "t"; clock = 9 }

abbrev fields : Dict String
fields = ("order", "document") ∷ ("correlation_id", "m") ∷ []

abbrev consumer : Option Replies → ExecutionConsumer ℤ Keyspace Replies
consumer t = record {
  redis = empty;
  db = record { trades = []; audit_log = [] };
  executor = record (executor requoted) { terminal = t };
  processed = 0;
  duplicates_suppressed = 0;
}

-- The same request twice.
abbrev batch : List Message
batch = ("1", fields) ∷ ("2", fields) ∷ []

handle_all_once_example :
    RanOnce env batch (consumer (some requoted)) (handle_all env batch (consumer (some requoted))).0
handle_all_once_example = handle_all_once env batch (consumer (some requoted))

handle-Ran_example :
    Ran env
      (called env fields (consumer (some requoted)))
      (consumer (some requoted))
      (handle env fields (consumer (some requoted))).0
    × KeepsRows (consumer (some requoted)).db (handle env fields (consumer (some requoted))).0.db
handle-Ran_example = handle-Ran env fields (consumer (some requoted))

parsed : parse_order env fields ≡ ok (some order)
unfolding parse_order text_eq
parsed = refl

-- The second request is a duplicate.
one_duplicate : (handle_all env batch (consumer (some requoted))).0.duplicates_suppressed ≡ 1
unfolding parse_order text_eq uuid_from_hex handle handle_all execute build_request get_tick format
    cut attempt judge insert_pending record_outcome set_status audit result_key is_done is_retryable
    describe_retcode
one_duplicate = refl

-- Without the MT5 package the assertion raises.
handle-IsLost_example :
    IsLost env "k1" assertion_error fields
      (consumer none)
      (handle env fields (consumer none)).0
      (handle env fields (consumer none)).1
unfolding execute uuid_from_hex text_eq
handle-IsLost_example =
    handle-IsLost env fields fields order order "01234567-89ab-cdef-0123-456789abcdef"
      assertion_error (consumer none) parsed refl refl refl refl parsed refl
