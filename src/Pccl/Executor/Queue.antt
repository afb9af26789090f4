-- ===== src/Pccl/Executor/Queue.antt =====
-- pcie-ccl-cuda/src/executor/graph_executor.cpp: the queue of collectives of one rank. submit takes
-- its sequence number and its slot under the mutex, prepares the user stream without it, and then
-- queues the item: two steps here, with the item in `reserved` between them (submit_mutex_ lets one
-- thread in). The worker takes an item, runs it and finishes it in between.
pub mod Slots
mod Tests
use hy_link.Prelude.{
  ℕ, ◌+◌, ◌-◌, ◌%◌, suc, ltb, Bool, true, false, ◌||◌, not, List, [], ◌∷◌, ◌++◌, length,
  if◌then◌else◌, ◌≡◌,
}

-- pcclResult_t
pub data Result : Type 0 where
  success invalid_argument system_error internal_error device_error network_error timeout : Result

pub is_success : Result → Bool
is_success r = elim r [ Result.success ↦ true | _ ↦ false ]

pub record WorkItem : Type 0 where
  pub epoch : ℕ
  pub work_seq : ℕ
  pub slot : ℕ

-- `current` is the item that the worker runs while it is busy. `signalled` lists the completion
-- flags raised for items that an error ends. The completion flag itself is set up.
pub record Executor : Type 0 where
  pub queue_depth : ℕ
  pub work_seq_counter : ℕ
  pub current : List WorkItem
  pub queue : List WorkItem
  pub reserved : List WorkItem
  pub last_result : Result
  pub stop : Bool
  pub signalled : List WorkItem

-- busy_ ? 1 : 0
pub active : Executor → ℕ
active ex = length ex.current

-- The first locked part of submit, in the state in which its wait ends. The wait ends by a timeout
-- if the queue is full.
pub submit_begin : Executor → Result × Executor
unfolding active is_success
submit_begin ex =
    let seq = suc ex.work_seq_counter in
    let item : WorkItem = record {
      epoch = seq % 2;
      work_seq = seq;
      slot = (seq - 1) % ex.queue_depth;
    } in
    if not (
      ex.stop
      || not (is_success ex.last_result)
      || ltb (active ex + length ex.queue) ex.queue_depth)
    then (Result.timeout, record ex { last_result = Result.timeout })
    else if ex.stop
    then (Result.internal_error, ex)
    else if not (is_success ex.last_result)
    then (ex.last_result, ex)
    else (Result.success, record ex { work_seq_counter = seq; reserved = item ∷ [] })

-- The rest of submit, given whether prepareUserWait succeeded.
pub submit_end : Executor → Bool → Result × Executor
submit_end ex prepared =
    if prepared
    then (Result.success, record ex { queue = ex.queue ++ ex.reserved; reserved = [] })
    else (Result.device_error, record ex { reserved = [] })

-- The worker takes the oldest item of its queue, when it has none.
pub take_from : Executor → List WorkItem → Executor
take_from ex [] = ex
take_from ex (item ∷ rest) = record ex { current = item ∷ []; queue = rest }

abbrev pub take_work : Executor → Executor
take_work ex = take_from ex ex.queue

pub finish_current_work : Executor → Result → Executor
unfolding is_success
finish_current_work ex result =
    if is_success result then record ex { last_result = result; current = [] } else record ex {
      last_result = result;
      current = [];
      queue = [];
      signalled = ex.signalled ++ ex.current ++ ex.queue;
    }

-- A step of the submitting thread or of the worker, while every user stream can be prepared.
pub data Step : Executor → Executor → Type 0 where
  begin_step : (ex : Executor) → length ex.reserved ≡ 0 → Step ex (submit_begin ex).1
  end_step : (ex : Executor) → Step ex (submit_end ex true).1
  take_step : (ex : Executor) → length ex.current ≡ 0 → Step ex (take_work ex)
  finish_step : (ex : Executor) (result : Result) → Step ex (finish_current_work ex result)
  stop_step : (ex : Executor) → Step ex (record ex { stop = true })

pub data Run : Executor → Executor → Type 0 where
  here : (ex : Executor) → Run ex ex
  more : (ex next last : Executor) → Step ex next → Run next last → Run ex last

abbrev pub fresh : ℕ → Executor
fresh depth = record {
  queue_depth = depth;
  work_seq_counter = 0;
  current = [];
  queue = [];
  reserved = [];
  last_result = Result.success;
  stop = false;
  signalled = [];
}
