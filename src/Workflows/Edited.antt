-- ===== src/Workflows/Edited.antt =====
-- What an edit of a workflow definition leaves behind (backend/app/services/workflows.py).
use access_piliot.Prelude.{ℕ, ◌≡◌, List}
use access_piliot.Store.{Session, M, ok}
use access_piliot.Workflows.Stages.{stages_of}
use access_piliot.Workflows.Editing.{StageCreate, stage_rows}

-- Where the code returns, its state has a property.
Yields : {A : Type 0} → (Session → Type 0) → M A → Type 0
Yields Q m = (s : Session) (b : _) → (m s).0 ≡ ok b → Q (m s).1

module _ (key : ℕ) (ds : List StageCreate) where
  Reads : Session → Type 0
  Reads s = stages_of key s.db ≡ stage_rows key 1 ds
