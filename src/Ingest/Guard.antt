-- ===== src/Ingest/Guard.antt =====
-- Who may ingest, and what the answer to an upload says.
use stock_quant_backend.Prelude.{
  ◌≡◌, ◌⊎◌, Bool, true, false, Option, none, some, [], ◌∷◌, if◌then◌else◌, length,
}
use stock_quant_backend.Prelude.Text.{Text}
use stock_quant_backend.Http.{Failure, unavailable, unauthorized, type_error}
use stock_quant_backend.Snapshots.{IngestResult}
use stock_quant_backend.Snapshots.Archive.{IsArchive, put}
use stock_quant_backend.Snapshots.Uploads.{Tables, Upload, read}
use stock_quant_backend.Ingest.{is_ascii}

abbrev pub is_some : {A : Type 0} → Option A → Bool
is_some none = false
is_some (some a) = true

-- Why a request is refused.
abbrev pub refusal : Text → Option Text → Failure
refusal [] header = unavailable
refusal (c ∷ configured) none = unauthorized
refusal (c ∷ configured) (some token) = if is_ascii token then unauthorized else type_error

module _ {F D : Type 0} (to_decimal : F → D) where
  -- What an accepted upload is told.
  abbrev pub receipt : Upload F → Tables D → IngestResult
  receipt u t = record {
    trade_date = u.body.trade_date;
    session = u.body.session;
    item_count = length u.body.items;
    replaced = is_some (read t u.body.trade_date u.body.session);
  }

  -- What a request leaves of the tables: as they were, or, where the upload is accepted, valid
  -- tables whose archive has its content at its day and session, and is as it was elsewhere.
  abbrev pub Stored : Bool → Upload F → Tables D → Tables D → Type 0
  Stored accepted u t t' =
      IsArchive t'.snapshots t'.items
      × (read t' ≡ (if accepted then put to_decimal u.body (read t) else read t))
      × ((accepted ≡ true) ⊎ (t' ≡ t))
