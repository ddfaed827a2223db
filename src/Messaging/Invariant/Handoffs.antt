-- ===== src/Messaging/Invariant/Handoffs.antt =====
-- prepareInboxHandoff keeps the tables sound.
use open_instinct.Base.{
  ℕ, refl, inl, inr, Bool, true, false, List, Text, update_where, returning, Option-cases,
}
use mathlib.Core.Path.{subst}
use open_instinct.Base.Results.{done, Holds, Holds-bind, Holds-mono, with_transaction-Holds}
use open_instinct.Messaging.Payload.{Digest, Handoff, Content}
use open_instinct.Messaging.Rows.{Db, inbox, Lease, Answer}
use open_instinct.Messaging.Queue.{check_lease}
use open_instinct.Messaging.Service.{
  with_input, prepare_schema, is_preparable, prepared_message, insert_transcripts, is_unprepared,
  decode_handoff, prepare, prepare_inbox_handoff,
}
use open_instinct.Messaging.Lifecycle.Changes
use open_instinct.Messaging.Invariant.{DbOk, Sound}
use open_instinct.Messaging.Invariant.Updates.{Sound-refl}
use open_instinct.Messaging.Invariant.Calls.{updated-Sound}
use open_instinct.Messaging.Invariant.Inserts.{Sound-Inserted, insert_transcripts-Holds}

-- An input that the schema refuses changes nothing.
pub with_input-Sound :
    {A : Type 0} (b : Bool) (db : Db) (call : Answer A × Db)
    → DbOk db
    → Sound db call.1
    → Sound db (with_input b db call).1
with_input-Sound true db call h s = s
with_input-Sound false db call h s = Sound-refl db h

module _ (d : Digest) (lease : Lease) (content : Content) (transcripts : List Text)
    (checked now later : ℕ) (db : Db) (h : DbOk db) where
  prepared-Sound : Sound db (record db {
    inbox = update_where (is_preparable lease content now) (prepared_message content) db.inbox;
  })
  unfolding prepared_message
  prepared-Sound =
      updated-Sound db h inbox (is_preparable lease content now) (prepared_message content)
        (λ m. refl) (λ m. refl)
        (λ m e ok. Changes.prepared_message-Keeps db.next_uuid m ok lease content now e)
        (λ m _ e. e)

  transcripts-Holds :
      (unprepared : Bool) (db' : Db)
      → Sound db db'
      → Holds
          (λ (x : Unit {0} × Db). Sound db x.1)
          (elim unprepared as (λ _. Answer (Unit {0} × Db)) [
            | true ↦ insert_transcripts d lease 0 transcripts db'
            | false ↦ done (tt, db')
          ])
  transcripts-Holds false db' s = s
  transcripts-Holds true db' s =
      Holds-mono _ _ (insert_transcripts d lease 0 transcripts db')
        (λ x g. Sound-Inserted db db' x.1 s g)
        (insert_transcripts-Holds d lease 0 transcripts db' s.ok)

  prepare-Holds :
      Holds
        (λ (x : Handoff × Db). Sound db x.1)
        (prepare d lease content transcripts checked now later db)
  unfolding prepare
  prepare-Holds = Holds-bind _ (check_lease inbox lease checked db) _ (λ current _.
      let c = is_preparable lease content now in
      let f = prepared_message content in
      elim (Option-cases (returning c f db.inbox)) [
        | inl e ↦ rw e (Holds-bind _ (check_lease inbox lease later db) _ (λ _ _. tt))
        | inr (m, e) ↦ rw e (
            Holds-bind _
              (elim (is_unprepared current.native_input) [
                | true ↦
                    insert_transcripts d lease 0 transcripts
                      (record db { inbox = update_where c f db.inbox })
                | false ↦ done (tt, record db { inbox = update_where c f db.inbox })
              ])
              _
              (λ x t. Holds-bind _ (decode_handoff m.native_input) _ (λ k _.
                subst (Holds (λ (x : Unit {0} × Db). Sound db x.1)) t
                  (transcripts-Holds (is_unprepared current.native_input) _ prepared-Sound))))
      ])

  pub prepare-Sound :
      Sound db (prepare_inbox_handoff d lease content transcripts checked now later db).1
  unfolding prepare_inbox_handoff
  prepare-Sound =
      with_input-Sound (prepare_schema content transcripts) db _ h
        (with_transaction-Holds (Sound db) db _ (Sound-refl db h) prepare-Holds)
