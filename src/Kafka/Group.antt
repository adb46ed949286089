-- ===== src/Kafka/Group.antt =====
-- The life of the partition consumers of a consumer group
-- (events-processor/config/kafka/consumer.go): goroutines that are started when a partition is
-- assigned, receive batches over a channel, and are told to quit when it is lost.
mod Update
pub mod Valid
pub mod Owned
pub mod Poll
pub mod Loop
use lago_paiement_engine.Prelude.{
  ℕ, suc, ◌<◌, ◌≡◌, Bool, true, false, ◌&&◌, Option, none, some, List, String, str_eq, ◌==◌,
  if◌then◌else◌,
}
use lago_paiement_engine.Kafka.Commit.{Record}

pub record TopicPartition : Type 0 where
  pub topic : String
  pub partition : ℕ

-- `==` on the keys of the map of consumers.
abbrev pub partition_eq : TopicPartition → TopicPartition → Bool
partition_eq a b = str_eq a.topic b.topic && a.partition == b.partition

-- Where `consume` stands: in its `select`, in `processRecordsAndCommit`, or returned, when `done`
-- is closed.
pub data Phase : Type 0 where
  selecting : Phase
  processing : List Record → Phase
  returned : Phase

-- A `PartitionConsumer` and its goroutine; `quit` says whether its channel is closed.
pub record Consumer : Type 0 where
  pub topic_partition : TopicPartition
  pub quit : Bool
  pub phase : Phase

-- The map of consumers by their number; all consumers that were ever started, of which there are
-- `next`; those whose end the callback `lost` waits for; and whether the context is cancelled.
pub record Group : Type 0 where
  pub consumers : TopicPartition → Option ℕ
  pub started : ℕ → Consumer
  pub next : ℕ
  pub awaited : ℕ → Bool
  pub cancelled : Bool

abbrev pub put : TopicPartition → Option ℕ → (TopicPartition → Option ℕ) → TopicPartition → Option ℕ
put tp v m k = if partition_eq k tp then v else m k

abbrev pub at {ℓ} : {A : Type ℓ} → ℕ → A → (ℕ → A) → ℕ → A
at i v f j = if j == i then v else f j

-- The body of the loop of `assigned`.
abbrev pub assigned : TopicPartition → Group → Group
assigned tp g = record g {
  consumers = put tp (some g.next) g.consumers;
  started = at g.next (record { topic_partition = tp; quit = false; phase = selecting }) g.started;
  next = suc g.next;
}

-- `closeQuitChannel`, which closes the channel once only.
abbrev pub close_quit_channel : Consumer → Consumer
close_quit_channel pc = record pc { quit = true }

-- The body of the loop of `lost`, for the consumer that the map has.
abbrev pub lost : TopicPartition → ℕ → Group → Group
lost tp i g = record g {
  consumers = put tp none g.consumers;
  started = at i (close_quit_channel (g.started i)) g.started;
  awaited = at i true g.awaited;
}

abbrev pub set_phase : ℕ → Phase → Group → Group
set_phase i phase g = record g { started = at i (record (g.started i) { phase = phase }) g.started }

-- `gracefulShutdown` closes the channels of all consumers of the map.
abbrev is_member : Option ℕ → ℕ → Bool
is_member none i = false
is_member (some j) i = j == i

abbrev pub graceful_shutdown : Group → Group
graceful_shutdown g = record g {
  started = λ i.
      if is_member (g.consumers (g.started i).topic_partition) i
      then close_quit_channel (g.started i)
      else g.started i;
}

-- One step of the group. The client assigns only partitions that are not assigned, loses only
-- those that are, and runs one callback at a time.
pub data Step (g : Group) : Group → Type 0 where
  assign :
      (tp : TopicPartition)
      → ((i : ℕ) → g.awaited i ≡ false)
      → g.consumers tp ≡ none
      → Step g (assigned tp g)
  lose : (tp : TopicPartition) (i : ℕ) → g.consumers tp ≡ some i → Step g (lost tp i g)
  -- `errgroup.Wait` at the end of `lost`.
  lost_returns :
      ((i : ℕ) → g.awaited i ≡ true → (g.started i).phase ≡ returned)
      → Step g (record g { awaited = λ i. false })
  -- `pollRecords` sends a batch to a consumer that receives it.
  deliver :
      (tp : TopicPartition) (i : ℕ) (records : List Record)
      → g.consumers tp ≡ some i
      → (g.started i).phase ≡ selecting
      → Step g (set_phase i (processing records) g)
  -- `processRecordsAndCommit` ends with the commit.
  commit :
      (i : ℕ) (records : List Record)
      → i < g.next
      → (g.started i).phase ≡ processing records
      → Step g (set_phase i selecting g)
  quits :
      (i : ℕ)
      → i < g.next
      → (g.started i).phase ≡ selecting
      → (g.started i).quit ≡ true
      → Step g (set_phase i returned g)
  stops :
      (i : ℕ)
      → i < g.next
      → (g.started i).phase ≡ selecting
      → g.cancelled ≡ true
      → Step g (set_phase i returned g)
  cancel : Step g (record g { cancelled = true })
  shut_down : g.cancelled ≡ true → Step g (graceful_shutdown g)

-- `NewConsumerGroup`: no consumer is started.
abbrev pub new_consumer_group : Consumer → Group
new_consumer_group unused = record {
  consumers = λ tp. none;
  started = λ i. unused;
  next = 0;
  awaited = λ i. false;
  cancelled = false;
}

pub data Steps (g : Group) : Group → Type 0 where
  stay : Steps g g
  next_step : {h k : Group} → Steps g h → Step h k → Steps g k
