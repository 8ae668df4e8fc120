-- ===== src/Store/Running.antt =====
-- A database session and the code that runs in one. A statement sees what the session wrote, `db`;
-- `commit` makes it last, in `saved`; `rollback` and the end of a request drop what is not committed.
-- What a connector did to a real directory is never undone: `calls` lists its mutating calls, the
-- newest first. The connectors themselves talk to services outside the repository, so their replies
-- are a parameter, `World`, which may answer a call by all that happened before.
use access_piliot.Prelude.{
  ℕ, ◌+◌, Bool, true, false, Option, none, some, List, [], ◌∷◌, if◌then◌else◌,
}
use access_piliot.Store.Types.{
  Error, ResourceType, ActorRole, admin, access_review_admin, other_role,
}
use access_piliot.Store.Rows.{Db}

-- The `request` dictionary of a grant or a removal.
pub record ProviderRequest : Type 0 where
  pub resource_type : ResourceType
  pub target_external_id : ℕ
  pub user_external_id : ℕ
  pub app_role : Option ℕ

pub data Call : Type 0 where
  activate_call : (provider : ℕ) → ProviderRequest → Call
  revoke_call : (provider : ℕ) → ProviderRequest → Call
  create_user_call : (provider user : ℕ) → Call

-- What a connector's coroutine returns or raises: true, false, or a `GraphError` with its code.
pub data Reply : Type 0 where
  confirmed declined : Reply
  failed : ℕ → Reply

-- The same for `create_user`: the new account, a `ProviderConflictError`, or a `GraphError`.
pub data CreateReply : Type 0 where
  created : ℕ → CreateReply
  conflict : CreateReply
  create_failed : ℕ → CreateReply

pub record World : Type 0 where
  pub reply : List Call → Call → Reply
  pub create_reply : List Call → Call → CreateReply
  -- live reads of one person's directory roles and app roles; `none` is a `GraphError`
  pub directory_role_ids : List Call → ℕ → Option (List ℕ)
  pub app_role_assignments : List Call → ℕ → Option (List (ℕ × Option ℕ))
  -- None at all is a `GraphError`; an inner none, a person who never signed in.
  pub last_sign_in : List Call → ℕ → Option (Option ℕ)

pub record Session : Type 0 where
  pub db : Db
  pub saved : Db
  pub now : ℕ
  pub world : World
  pub calls : List Call

-- `raised` is an `AccessPilotError`; `crashed` any other exception, which no handler here catches.
pub data Result (A : Type 0) : Type 0 where
  ok : A → Result A
  raised : Error → Result A
  crashed : Result A

abbrev pub M : Type 0 → Type 0
M A = Session → Result A × Session

module _ {A : Type 0} where
  unfoldable pub pure : A → M A
  pure a s = (ok a, s)

  unfoldable pub raise : Error → M A
  raise e s = (raised e, s)

  unfoldable pub crash : M A
  crash s = (crashed, s)

  unfoldable pub gets : (Session → A) → M A
  gets f s = (ok (f s), s)

  unfoldable pub or_raise : Option A → Error → M A
  or_raise none e s = (raised e, s)
  or_raise (some a) e s = (ok a, s)

module _ {A B : Type 0} where
  abbrev pub continue : Result A → (A → M B) → M B
  continue (ok a) f s = f a s
  continue (raised e) f s = (raised e, s)
  continue crashed f s = (crashed, s)

  infixl 10 ◌>>=◌ ◌>>◌
  -- Opening this opens the simple actions too.
  unfoldable pub ◌>>=◌ : M A → (A → M B) → M B
  unfolding pure raise crash gets or_raise
  ◌>>=◌ m f s = let (r, s') = m s in continue r f s'

  abbrev pub ◌>>◌ : M A → M B → M B
  m >> n = m >>= λ _. n

  -- `try: ... except AccessPilotError`.
  abbrev pub recover : Result A → (A → M B) → (Error → M B) → M B
  recover (ok a) f h s = f a s
  recover (raised e) f h s = h e s
  recover crashed f h s = (crashed, s)

  unfoldable pub try_else : M A → (A → M B) → (Error → M B) → M B
  try_else m f h s = let (r, s') = m s in recover r f h s'

unfoldable pub modify : (Db → Db) → M (Unit {0})
modify f s = (ok tt, record s { db = f s.db })

unfoldable pub raise_if : Bool → Error → M (Unit {0})
raise_if b e s = (if b then raised e else ok tt, s)

unfoldable pub commit : M (Unit {0})
commit s = (ok tt, record s { saved = s.db })

unfoldable pub rollback : M (Unit {0})
rollback s = (ok tt, record s { db = s.saved })

-- The connector's call is made, and its reply comes back.
unfoldable pub call : Call → M Reply
call c s = (ok (s.world.reply s.calls c), record s { calls = c ∷ s.calls })

unfoldable pub create_call : Call → M CreateReply
create_call c s = (ok (s.world.create_reply s.calls c), record s { calls = c ∷ s.calls })

-- A key for a new row (`uuid4`).
unfoldable pub fresh_id : M ℕ
fresh_id s = (ok s.db.next_id, record s { db = record s.db { next_id = s.db.next_id + 1 } })

-- `for x in xs:` over a body with no result.
unfoldable pub for_each : {A : Type 0} → (A → M (Unit {0})) → List A → M (Unit {0})
for_each f [] = pure tt
for_each f (x ∷ xs) = f x >> for_each f xs

-- The end of a request: the session is closed, and what was not committed is gone.
unfoldable pub close : Session → Session
close s = record s { db = s.saved }

abbrev pub is_admin : List ActorRole → Bool
is_admin [] = false
is_admin (admin ∷ rs) = true
is_admin (access_review_admin ∷ rs) = is_admin rs
is_admin (other_role n ∷ rs) = is_admin rs
