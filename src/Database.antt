-- ===== src/Database.antt =====
-- src/database.rs: the `peer` table behind its three queries. What SQLite does is part of each call:
-- `db_up` says whether the query is answered at all, and `db_accepts` whether an insert or an update
-- repeats neither the primary key nor the unique index. The columns user, status and note are never
-- written.
use kinbridge_server.Prelude.{
  Bool, ◌&&◌, String, List, [], ◌∷◌, Option, none, some, ◌==◌, nat_eq, string_eq, list_eq,
  if◌then◌else◌,
}
use kinbridge_server.Message.{Bytes}

pub record Row : Type 0 where
  pub guid : Bytes
  pub id : String
  pub uuid : Bytes
  pub pk : Bytes
  pub info : String

-- ResultType, whose error text is only logged.
pub data ResultType {ℓ} (A : Type ℓ) : Type ℓ where
  ok : A → ResultType A
  err : ResultType A

-- where id = ?
unfoldable pub find_id : String → List Row → Option Row
find_id id [] = none
find_id id (r ∷ rows) = if r.id == id then some r else find_id id rows

unfoldable pub get_peer : Bool → String → List Row → ResultType (Option Row)
unfolding find_id
get_peer db_up id rows = if db_up then ok (find_id id rows) else err

-- The new guid is a fresh UUID, an argument.
unfoldable pub insert_peer :
    Bool → Bool → Bytes → String → Bytes → Bytes → String → List Row → ResultType Bytes × List Row
insert_peer db_up db_accepts guid id uuid pk info rows =
    if db_up && db_accepts
    then (ok guid, record { guid = guid; id = id; uuid = uuid; pk = pk; info = info } ∷ rows)
    else (err, rows)

set_row : Bytes → String → Bytes → String → Row → Row
set_row guid id pk info r = if r.guid == guid then record r { id = id; pk = pk; info = info } else r

unfoldable pub set_rows : Bytes → String → Bytes → String → List Row → List Row
unfolding set_row
set_rows guid id pk info [] = []
set_rows guid id pk info (r ∷ rows) = set_row guid id pk info r ∷ set_rows guid id pk info rows

-- update peer set id=?, pk=?, info=? where guid=?
unfoldable pub update_pk :
    Bool → Bool → Bytes → String → Bytes → String → List Row → ResultType (Unit {0}) × List Row
unfolding set_rows
update_pk db_up db_accepts guid id pk info rows =
    if db_up && db_accepts then (ok tt, set_rows guid id pk info rows) else (err, rows)
