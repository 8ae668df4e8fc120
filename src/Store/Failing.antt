-- ===== src/Store/Failing.antt =====
-- `try: ... except Exception` around a write, and a commit that the database may refuse. Which writes
-- it refuses (a foreign key, a lost connection) is a parameter.
use access_piliot.Prelude.{◌≡◌, sym, ap, ◌∙◌, Bool, if◌then◌else◌}
use access_piliot.Store.Rows.{Db}
use access_piliot.Store.Running.{Session, Result, ok, raised, crashed, M}
use access_piliot.Store.Rules.{Preserves, From}

unfoldable pub commit_unless : (refuses : Db → Bool) → M (Unit {0})
commit_unless refuses s = if refuses s.db then (crashed, s) else (ok tt, record s { saved = s.db })

module _ {A : Type 0} where
  -- Any error at all leads to the handler.
  abbrev pub or_handle : Result A → M A → M A
  or_handle (ok a) h s = (ok a, s)
  or_handle (raised e) h s = h s
  or_handle crashed h s = h s

  unfoldable pub try_any : M A → (handler : M A) → M A
  try_any m h s = let (r, s') = m s in or_handle r h s'

  pub try_any-ok : (m h : M A) (s : Session) (a : A) → (m s).0 ≡ ok a → try_any m h s ≡ m s
  unfolding try_any
  try_any-ok m h s a e = ap (λ r. or_handle r h (m s).1) e ∙ ap (λ r. (r, (m s).1)) (sym e)

  pub try_any-crashed : (m h : M A) (s : Session) → (m s).0 ≡ crashed → try_any m h s ≡ h (m s).1
  unfolding try_any
  try_any-crashed m h s e = ap (λ r. or_handle r h (m s).1) e

  module _ {P pre : Session → Type 0} where
    pub From-try_any : (m h : M A) → From pre P m → Preserves P h → From pre P (try_any m h)
    unfolding try_any
    From-try_any m h km kh = record {
      at = λ s p held. let (r, s') = m s in handled r s' (km.at s p held);
    }
      where
        handled : (r : Result A) (s : Session) → P s → P (or_handle r h s).1
        handled (ok a) s held = held
        handled (raised e) s held = kh.at s held
        handled crashed s held = kh.at s held
