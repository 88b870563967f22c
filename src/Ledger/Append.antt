-- ===== src/Ledger/Append.antt =====
-- `SignedLedger.append` and `_write_head` of src/fieldtrue/receipts.py.
use inbar.Prelude.{
  ℕ, ◌+◌, String, Option, none, some, List, [], ◌∷◌, ◌++◌, Bool, true, ◌&&◌, not, Result, ok, err,
  false, Check, ◌>>=◌, ◌>>◌, raise_if, require, string_discrete, is_hex, is_identifier, length,
}
use inbar.Domain.{Timestamp, in_utc}
use inbar.Runtime.{RuntimeIdentity, require_observed_provenance}
use inbar.Ledger.{
  EventBody, LedgerEvent, HeadBody, LedgerHead, LedgerFiles, Primitives, LedgerError,
  provenance_required, append_signer_mismatch, malformed_event, naive_timestamp, malformed_line,
  write_failed,
}
use inbar.Ledger.Verify.{verify_events}

-- The arguments of `append`; the clock has been read into `timestamp`.
pub record Request (Payload : Type 0) : Type 0 where
  pub run_id : String
  pub event_type : String
  pub payload : Payload
  pub runtime : RuntimeIdentity
  pub approval_receipt_hash : Option String
  pub timestamp : Timestamp

abbrev pub is_hex_option : Option String → Bool
is_hex_option none = true
is_hex_option (some h) = is_hex 64 h

-- `LedgerEvent.model_validate`: the patterns of the fields. The runtime has been validated before.
unfoldable pub well_formed : {Payload : Type 0} → LedgerEvent Payload → Bool
well_formed e =
    is_identifier e.run_id
    && is_identifier e.event_type
    && is_hex 64 e.payload_hash
    && is_hex 64 e.previous_event_hash
    && is_hex_option e.approval_receipt_hash
    && is_hex 64 e.signer_public_key
    && is_hex 64 e.event_hash
    && is_hex 128 e.signature

-- `RuntimeProvenanceError` is passed on as a ledger error.
abbrev pub observed : RuntimeIdentity → Check LedgerError
observed r = elim (require_observed_provenance r) [ ok _ ↦ ok tt | err _ ↦ err provenance_required ]

-- `open("a+")` creates the ledger, and reading it gives the events.
abbrev pub existing : {Payload : Type 0} → LedgerFiles Payload → List (LedgerEvent Payload)
existing files = elim files.ledger [ none ↦ [] | some events ↦ events ]

abbrev pub opened : {Payload : Type 0} → LedgerFiles Payload → LedgerFiles Payload
opened files = record files { ledger = some (existing files) }

-- `_parse_events`: the part of a line is refused.
abbrev pub parsed :
    {Payload : Type 0} → LedgerFiles Payload → Result LedgerError (List (LedgerEvent Payload))
parsed files = do raise_if files.torn malformed_line; ok (existing files)

-- What the operating system does with the writes of one call, the last five with an `OSError`: all are made,
-- or nothing or only a part of the line reaches the ledger, or the line does and is not synced, or the
-- head is not replaced, or it is and its folder is not synced. A line without its last newline is
-- left out.
pub data Writes : Type 0 where
  all_written line_lost line_torn line_unsynced head_failed head_unsynced : Writes

module _ {Payload SigningKey : Type 0} (prims : Primitives Payload SigningKey)
    (key : SigningKey) where
  abbrev pub new_body : Request Payload → ℕ → String → EventBody Payload
  new_body request sequence previous = record {
    sequence = sequence;
    timestamp = request.timestamp;
    run_id = request.run_id;
    event_type = request.event_type;
    payload = request.payload;
    payload_hash = prims.payload_digest request.payload;
    previous_event_hash = previous;
    runtime = request.runtime;
    approval_receipt_hash = request.approval_receipt_hash;
    signer_public_key = prims.public_key key;
  }

  -- What `canonical_json` writes for the body as a dictionary: its time is put to UTC.
  abbrev pub utc_body : EventBody Payload → EventBody Payload
  utc_body body = record body { timestamp = in_utc body.timestamp }

  -- The hash is that of the dictionary, and the event has the time that was given.
  abbrev pub signed_event : EventBody Payload → LedgerEvent Payload
  signed_event body = record {
    event_body = body;
    event_hash = prims.body_digest (utc_body body);
    signature = prims.sign key (prims.body_digest (utc_body body));
  }

  abbrev pub check_signer : List (LedgerEvent Payload) → String → Check LedgerError
  check_signer [] existing_signer = ok tt
  check_signer (_ ∷ _) existing_signer =
      require (string_discrete (prims.public_key key) existing_signer) append_signer_mismatch

  -- Everything up to the write: the event to append, verified behind the existing ones.
  unfoldable pub prepare :
      Request Payload → List (LedgerEvent Payload) → Result LedgerError (LedgerEvent Payload)
  prepare request events = do
    last ← verify_events prims events
    check_signer events last.1
    raise_if (not request.timestamp.aware) naive_timestamp
    let event = signed_event (new_body request (length events) last.0)
    raise_if (not (well_formed event)) malformed_event
    _ ← verify_events prims (events ++ event ∷ [])
    ok event

  abbrev pub new_head : ℕ → String → LedgerHead
  new_head event_count head_hash =
      let body : HeadBody = record {
        event_count = event_count;
        head_hash = head_hash;
        signer_public_key = prims.public_key key;
      } in
      record { head_body = body; signature = prims.sign key (prims.head_bytes body) }

  abbrev pub with_line : LedgerFiles Payload → LedgerEvent Payload → LedgerFiles Payload
  with_line files event = record {
    ledger = some (existing files ++ event ∷ []);
    head = files.head;
    torn = false;
  }

  abbrev pub with_head : LedgerFiles Payload → LedgerEvent Payload → LedgerFiles Payload
  with_head files event = record {
    ledger = some (existing files ++ event ∷ []);
    head = some (new_head (length (existing files) + 1) event.event_hash);
    torn = false;
  }

  -- The writes of the line, then of the head
  abbrev pub write :
      Writes
      → LedgerFiles Payload
      → LedgerEvent Payload
      → Result LedgerError (LedgerEvent Payload) × LedgerFiles Payload
  write all_written files event = (ok event, with_head files event)
  write line_lost files event = (err write_failed, opened files)
  write line_torn files event =
      (err write_failed, record { ledger = some (existing files); head = files.head; torn = true })
  write line_unsynced files event = (err write_failed, with_line files event)
  write head_failed files event = (err write_failed, with_line files event)
  write head_unsynced files event = (err write_failed, with_head files event)

  abbrev pub written :
      Writes
      → LedgerFiles Payload
      → Result LedgerError (LedgerEvent Payload)
      → Result LedgerError (LedgerEvent Payload) × LedgerFiles Payload
  written writes files (err e) = (err e, opened files)
  written writes files (ok event) = write writes files event

  -- What was written before an exception stays: the ledger file exists once it has been opened.
  unfoldable pub append :
      Writes
      → Request Payload
      → LedgerFiles Payload
      → Result LedgerError (LedgerEvent Payload) × LedgerFiles Payload
  append writes request files = elim (observed request.runtime) [
    | err e ↦ (err e, files)
    | ok _ ↦ written writes files (parsed files >>= prepare request)
  ]
