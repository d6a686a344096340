-- ===== src/Worker/BatchMaker.antt =====
-- worker/src/batch_maker.rs: the transactions of clients are put into batches. What `seal` stores,
-- delivers to the processor and broadcasts is one batch; encoding it and logging it are left out.
use auto_pilot.Crypto.{PublicKey}
use auto_pilot.Config.Committee.{SocketAddr}
use auto_pilot.Core.State.{add_u64}
use auto_pilot.Prelude.{
  leb, if◌then◌else◌, nat_eq, pair_eq, filter, contains, values, ℕ, Bool, false, not, List, [], ◌∷◌,
  ◌++◌,
}

pub record Transaction : Type 0 where
  pub data_bytes : List ℕ
  pub created_at : ℕ
  pub size : ℕ

abbrev pub Batch : Type 0
Batch = List Transaction

-- `tx_batch` holds the batches that were stored and delivered, and `broadcasts` those sent out, with
-- their addresses.
pub record BatchMaker : Type 0 where
  pub batch_size : ℕ
  pub max_batch_delay : ℕ
  pub workers_addresses : List (PublicKey × SocketAddr)
  pub current_batch : Batch
  pub current_batch_size : ℕ
  pub during_simulated_asynchrony : Bool
  pub partition_public_keys : List PublicKey
  pub partition_queue : List Batch
  pub tx_batch : List Batch
  pub broadcasts : List (List SocketAddr × Batch)

-- What the loop of `run` may receive.
pub data Event : Type 0 where
  receive : Transaction → Event
  delay_passed : Event
  update_parameters : ℕ → ℕ → Event
  toggle_asynchrony : Event

-- The addresses of a broadcast, during simulated asynchrony those of the own partition.
unfoldable pub batch_addresses : BatchMaker → List SocketAddr
batch_addresses s =
    if s.during_simulated_asynchrony
    then values (filter (λ a. contains s.partition_public_keys (a.0)) s.workers_addresses)
    else values s.workers_addresses

unfoldable pub seal : BatchMaker → BatchMaker
unfolding batch_addresses
seal s = record s {
  current_batch = [];
  current_batch_size = 0;
  partition_queue =
      if s.during_simulated_asynchrony
      then s.partition_queue ++ s.current_batch ∷ []
      else s.partition_queue;
  tx_batch = s.tx_batch ++ s.current_batch ∷ [];
  broadcasts = s.broadcasts ++ (batch_addresses s, s.current_batch) ∷ [];
}

-- The batch, if there is one, is sealed.
unfoldable pub seal_unless_empty : Batch → BatchMaker → BatchMaker
unfolding seal
seal_unless_empty [] s = s
seal_unless_empty (_ ∷ _) s = seal s

-- One turn of the loop.
unfoldable pub step : BatchMaker → Event → BatchMaker
unfolding seal_unless_empty
step s (receive transaction) =
    let added = record s {
      current_batch_size = add_u64 s.current_batch_size transaction.size;
      current_batch = s.current_batch ++ transaction ∷ [];
    } in
    if leb s.batch_size added.current_batch_size then seal added else added
step s delay_passed = seal_unless_empty s.current_batch s
step s (update_parameters new_batch_size new_max_batch_delay) = record s {
  batch_size = new_batch_size;
  max_batch_delay = new_max_batch_delay;
}
step s toggle_asynchrony = record s {
  during_simulated_asynchrony = not s.during_simulated_asynchrony;
}

unfoldable pub run : BatchMaker → List Event → BatchMaker
unfolding step
run s [] = s
run s (e ∷ es) = run (step s e) es

-- A batch maker at its start.
unfoldable pub new_batch_maker : ℕ → ℕ → List (PublicKey × SocketAddr) → BatchMaker
new_batch_maker batch_size max_batch_delay workers_addresses = record {
  batch_size = batch_size;
  max_batch_delay = max_batch_delay;
  workers_addresses = workers_addresses;
  current_batch = [];
  current_batch_size = 0;
  during_simulated_asynchrony = false;
  partition_public_keys = [];
  partition_queue = [];
  tx_batch = [];
  broadcasts = [];
}
