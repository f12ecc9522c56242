-- ===== src/Tests/Serve.antt =====
-- The theorems on the server and the client, on the dictionary of the parent.
use mathlib.Core.Option.{or_else}
use nodare_db_dev.Prelude.{
  Bool, Returns, [], arith, bytes_eq, false, get_or, if◌then◌else◌, inr, none, ok, refl, some, true,
  ℕ, ◌++◌, ◌∷◌, ◌≡◌,
}
use nodare_db_dev.Client.{get_text, set_text}
use nodare_db_dev.Client.Escape.{escape, un_escape, un_escape-escape}
use nodare_db_dev.Client.Wire.{lines, set-get-over_wire}
use nodare_db_dev.Database.Dick.{XDatabase}
use nodare_db_dev.Database.Dick.Valid.{dick_view}
use nodare_db_dev.Database.Entry.{lookup, str}
use nodare_db_dev.Database.Refines.{Models}
use nodare_db_dev.Database.Sub.{is_some}
use nodare_db_dev.Database.Sub.Edit.{update}
use nodare_db_dev.Database.Sub.Move.{pure_hash}
use nodare_db_dev.Database.Sub.Valid.{view}
use nodare_db_dev.Server.Session.{Session, ack, crlf, mode_del, new_session, stay, val_at}
use nodare_db_dev.Server.Settings.{Timeouts}
use nodare_db_dev.Server.Socket.{del_keys, get_keys, handle_lines, set_keys}
use nodare_db_dev.Server.Socket.Exchange.{del_request, del_request-answers}
use nodare_db_dev.Server.Socket.Loops.{
  IsText, del_answer, del_keys-Models, del_texts, get_keys-texts, removed, set_keys-Models, stored,
  texts,
}
use nodare_db_dev.Server.Web.{
  handler_del, handler_del-status, handler_get-page, handler_get_val_by_key, handler_set,
  handler_set-stores, method_get, method_post, page, stored_pairs,
}
use nodare_db_dev.Tests.{busy_dick, busy_dick-Models, busy_map, code, key_a, key_b, text_x}

-- The socket and the web server on that dictionary, with a connection that takes every reply.
abbrev pub busy_db : XDatabase
busy_db = record { xdick = busy_dick; boot_t = 0 }

abbrev accepts : ℕ → Bool
accepts n = true

a_IsText : IsText (busy_map key_a)
unfolding dick_view view lookup bytes_eq get_or or_else
a_IsText = inr (text_x, refl)

get_keys-texts_example :
    get_keys accepts (pure_hash code) code false (key_a ∷ []) new_session busy_db
    ≡ ok (stay (record new_session { sent = texts false [] busy_map (key_a ∷ []) }) busy_db)
get_keys-texts_example =
    get_keys-texts code code {n = 1} accepts false (key_a ∷ []) new_session busy_db busy_map
      (λ i. refl) busy_dick-Models (a_IsText, tt)

abbrev filled_session : Session
filled_session = record new_session { vals = some ((key_b, text_x) ∷ []) }

set_keys-Models_example :
    (db' : XDatabase) × (set_keys accepts (pure_hash code) code (key_b ∷ []) filled_session busy_db
      ≡ ok (stay filled_session db'))
    × Models code code 2 (stored (λ q. text_x) busy_map (key_b ∷ [])) db'.xdick
set_keys-Models_example =
    set_keys-Models code code {n = 1} accepts (λ q. text_x) (key_b ∷ []) filled_session busy_db
      busy_map (unfold val_at bytes_eq in refl, tt) busy_dick-Models (omega arith)

del_keys-Models_example :
    (db' : XDatabase) × (del_keys accepts (pure_hash code) code (key_a ∷ []) new_session busy_db
      ≡ ok (stay (record new_session { sent = del_texts [] busy_map (key_a ∷ []) }) db'))
    × Models code code 1 (removed busy_map (key_a ∷ [])) db'.xdick
del_keys-Models_example =
    del_keys-Models code code {n = 1} accepts (key_a ∷ []) new_session busy_db busy_map (λ i. refl)
      busy_dick-Models (omega arith)

del_request-answers_example :
    (db' : XDatabase) × (handle_lines accepts
        (pure_hash code)
        code
        (del_request key_a)
        (stay new_session busy_db)
      ≡ ok (
          stay
            (record new_session {
              mode = mode_del;
              state = some 1;
              keys = key_a ∷ [];
              vals = some [];
              sent = del_answer [] (busy_map key_a) ∷ [];
            })
            db'))
    × Models code code 1 (update busy_map key_a none) db'.xdick
del_request-answers_example =
    del_request-answers code code accepts (λ i. refl) {n = 1} new_session busy_db busy_map key_a
      refl (omega arith) busy_dick-Models (omega arith)

set-get-over_wire_example :
    (db' : XDatabase) × (handle_lines accepts
        (pure_hash code)
        code
        (lines [] (set_text key_b text_x ++ get_text key_b))
        (stay new_session busy_db)
      ≡ ok (
          stay
            (record new_session {
              state = some 1;
              vals = some [];
              sent = (ack ∷ crlf) ∷ (text_x ++ crlf) ∷ [];
            })
            db'))
    × Models code code 2 (update busy_map key_b (some (str text_x))) db'.xdick
set-get-over_wire_example =
    set-get-over_wire code code {n = 1} accepts busy_db busy_map key_b text_x (λ i. refl) (refl, tt)
      (refl, tt) (omega arith) (omega arith) busy_dick-Models (omega arith)

handler_set-stores_example :
    Returns
      (handler_set (pure_hash code) code busy_db method_post (some ((key_b, str text_x) ∷ [])))
      λ p.
        Models code code 2 (stored_pairs code code busy_map ((key_b, str text_x) ∷ [])) p.0.xdick
        × (p.1.status ≡ 201)
handler_set-stores_example =
    handler_set-stores code code {n = 1} ((key_b, str text_x) ∷ []) busy_db busy_map
      busy_dick-Models (omega arith)

handler_get-page_example :
    handler_get_val_by_key (pure_hash code) code busy_db method_get key_a
    ≡ page code code (busy_map key_a)
handler_get-page_example =
    handler_get-page code code {n = 1} busy_db busy_map key_a busy_dick-Models (λ e. absurd (cc))

handler_del-status_example :
    Returns (handler_del (pure_hash code) code busy_db method_get key_a) λ p.
      Models code code 1 (update busy_map key_a none) p.0.xdick
      × (p.1.status ≡ (if is_some (busy_map key_a) then 200 else 500))
handler_del-status_example =
    handler_del-status code code {n = 1} busy_db busy_map key_a busy_dick-Models (omega arith)
      (λ e. absurd (cc))

un_escape-escape_example : un_escape (escape (97 ∷ 13 ∷ 10 ∷ [])) ≡ 97 ∷ 13 ∷ 10 ∷ []
un_escape-escape_example = un_escape-escape (97 ∷ 13 ∷ 10 ∷ []) (refl, (refl, (refl, tt)))

abbrev no_timeouts : Timeouts
no_timeouts = record { rto = 0; wto = 0; ito = 0 }
