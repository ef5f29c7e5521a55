-- ===== src/Notifier/System.antt =====
-- The tasks of a `Notifier` of src/notifier.rs, interleaved in any order: one moves messages from
-- the channel into the buffer, one takes them out and spawns a broadcast for each, and the
-- broadcasts write to the clients. What a watch channel holds is whether its last version was seen.
use nkv.Base.{
  ℕ, Text, literal, Bool, true, false, ◌≡◌, Option, none, some, List, [], ◌∷◌, ◌++◌, ◌⊎◌, list_eq,
  number_eq,
}
use nkv.Base.Dict
use nkv.Base.Dict.{Dict}
use nkv.Message.{Message, close}
use nkv.Notifier.StateBuf
use nkv.Notifier.StateBuf.{StateBuf}

-- A broadcast: spawned, or with the clients that are left and those that it could not write to.
pub data Job : Type 0 where
  spawned : Message → Job
  sending : Message → List Text → List Text → Job

pub record System : Type 0 where
  -- The channel that is read, and whether the task that reads it goes on.
  pub queue : List Message
  pub receiving : Bool
  pub buf : StateBuf Message
  -- The reading task has stored a message and has not told so yet.
  pub stored : Bool
  -- The watch channel has a version that was not seen.
  pub changed : Bool
  -- The other task has seen it and has not taken the message yet.
  pub woken : Bool
  pub jobs : List Job
  pub clients : Dict Text ℕ
  -- What was written to which connection, the oldest first.
  pub wire : List (ℕ × Message)
  -- History: the messages that were put into the channel, and those given to a broadcast.
  pub sent : List Message
  pub handed : List Message

-- `Notifier::new` over an empty channel.
unfoldable pub new : System
unfolding StateBuf.new
new = record {
  queue = [];
  receiving = true;
  buf = StateBuf.new;
  stored = false;
  changed = false;
  woken = false;
  jobs = [];
  clients = [];
  wire = [];
  sent = [];
  handed = [];
}

-- What `send_notifications` makes of the message that it took, if any.
abbrev pub spawn : Option Message → List Job
spawn none = []
spawn (some m) = spawned m ∷ []

abbrev pub taken : Option Message → List Message
taken none = []
taken (some m) = m ∷ []

-- `send_notifications`
unfoldable pub take_out : System → System
unfolding StateBuf.pop
take_out s =
    let (buf, el) = StateBuf.pop s.buf in
    record s { buf = buf; woken = false; jobs = s.jobs ++ spawn el; handed = s.handed ++ taken el }

-- The end of a broadcast, under one lock: each client that could not be written to gets a Close
-- and is removed, or stays if that fails too.
pub data CloseFailed
    : List Text → Dict Text ℕ → List (ℕ × Message) → Dict Text ℕ → List (ℕ × Message) → Type 0 where
  done : {d : Dict Text ℕ} {wire : List (ℕ × Message)} → CloseFailed [] d wire d wire
  closed :
      {u : Text} {us : List Text} {d d' : Dict Text ℕ} {wire wire' : List (ℕ × Message)} {w : ℕ}
      → Dict.lookup u d ≡ some w
      → CloseFailed us (Dict.remove u d) (wire ++ (w, close (literal "failed addr")) ∷ []) d' wire'
      → CloseFailed (u ∷ us) d wire d' wire'
  kept :
      {u : Text} {us : List Text} {d d' : Dict Text ℕ} {wire wire' : List (ℕ × Message)}
      → CloseFailed us d wire d' wire'
      → CloseFailed (u ∷ us) d wire d' wire'

-- `unsubscribe_all` writes a Close to each connection until one fails.
pub data CloseAll (key : Text)
    : Dict Text ℕ → List (ℕ × Message) → List (ℕ × Message) → Type 0 where
  all_closed : {wire : List (ℕ × Message)} → CloseAll key [] wire wire
  one_closed :
      {u : Text} {w : ℕ} {d : Dict Text ℕ} {wire wire' : List (ℕ × Message)}
      → CloseAll key d (wire ++ (w, close key) ∷ []) wire'
      → CloseAll key ((u, w) ∷ d) wire wire'
  failed : {d : Dict Text ℕ} {wire : List (ℕ × Message)} → CloseAll key d wire wire

pub data Step (s : System) : System → Type 0 where
  -- A message comes into the channel.
  arrive :
      (m : Message)
      → s.receiving ≡ true
      → Step s (record s { queue = s.queue ++ m ∷ []; sent = s.sent ++ m ∷ [] })
  -- The task that reads: `recv`, `store`, then `send(true)`; it ends with the channel.
  receive :
      (m : Message) (rest : List Message)
      → s.queue ≡ m ∷ rest
      → s.stored ≡ false
      → s.receiving ≡ true
      → Step s (record s { queue = rest; buf = StateBuf.store m s.buf; stored = true })
  signal : s.stored ≡ true → Step s (record s { stored = false; changed = true })
  end_of_channel : s.queue ≡ [] → s.stored ≡ false → Step s (record s { receiving = false })
  -- The task that waits: `changed()` returns for a new version, and at once if the sender is gone.
  wake :
      (s.changed ≡ true) ⊎ (s.receiving ≡ false)
      → s.woken ≡ false
      → Step s (record s { changed = false; woken = true })
  take : s.woken ≡ true → Step s (take_out s)
  -- A broadcast reads the names of the clients, and writes to one after the other.
  start :
      (before after : List Job) (m : Message)
      → s.jobs ≡ before ++ spawned m ∷ after
      → Step s (record s { jobs = before ++ sending m (Dict.keys s.clients) [] ∷ after })
  write :
      (before after : List Job) (m : Message) (u : Text) (us failures : List Text) (w : ℕ)
      → s.jobs ≡ before ++ sending m (u ∷ us) failures ∷ after
      → Dict.lookup u s.clients ≡ some w
      → Step s (record s {
        jobs = before ++ sending m us failures ∷ after;
        wire = s.wire ++ (w, m) ∷ [];
      })
  write_failed :
      (before after : List Job) (m : Message) (u : Text) (us failures : List Text) (w : ℕ)
      → s.jobs ≡ before ++ sending m (u ∷ us) failures ∷ after
      → Dict.lookup u s.clients ≡ some w
      → Step s (record s { jobs = before ++ sending m us (failures ++ u ∷ []) ∷ after })
  skip :
      (before after : List Job) (m : Message) (u : Text) (us failures : List Text)
      → s.jobs ≡ before ++ sending m (u ∷ us) failures ∷ after
      → Dict.lookup u s.clients ≡ none
      → Step s (record s { jobs = before ++ sending m us failures ∷ after })
  finish :
      (before after : List Job) (m : Message) (failures : List Text) (d : Dict Text ℕ)
      (wire : List (ℕ × Message))
      → s.jobs ≡ before ++ sending m [] failures ∷ after
      → CloseFailed failures s.clients s.wire d wire
      → Step s (record s { jobs = before ++ after; clients = d; wire = wire })
  -- `subscribe`, `unsubscribe` and `unsubscribe_all`; an unsubscription that cannot write its Close
  -- changes nothing.
  subscribe : (u : Text) (w : ℕ) → Step s (record s { clients = Dict.insert u w s.clients })
  unsubscribe :
      (key u : Text) (w : ℕ)
      → Dict.lookup u s.clients ≡ some w
      → Step s
          (record s { clients = Dict.remove u s.clients; wire = s.wire ++ (w, close key) ∷ [] })
  unsubscribe_all :
      (key : Text) (wire : List (ℕ × Message))
      → CloseAll key s.clients s.wire wire
      → Step s (record s { clients = []; wire = wire })

-- Any number of steps.
pub data Steps (s : System) : System → Type 0 where
  here : Steps s s
  next : {t u : System} → Steps s t → Step t u → Steps s u
