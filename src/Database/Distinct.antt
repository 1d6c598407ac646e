-- ===== src/Database/Distinct.antt =====
-- The lists that stand for the three maps of src/database/database.cpp, and their keys.
use my_redis.Prelude.{List, ◌∷◌}
use my_redis.Prelude.Text.{Text, text_eq}
use my_redis.Dict.{assign}
use my_redis.Dict.Distinct.{HasDistinctKeys, assign-HasDistinctKeys, erase-HasDistinctKeys}
use my_redis.Database.{Database, remove_expired_unlocked, set}
use my_redis.Database.Lists.{forget_list}
use my_redis.Database.Operations.{Operation, run}
use my_redis.Database.Closure.{IsClosed, run-keeps}

pub record IsDistinct (db : Database) : Type 0 where
  pub store : HasDistinctKeys db.store
  pub list_store : HasDistinctKeys db.list_store
  pub expiry : HasDistinctKeys db.expiry

remove-IsDistinct :
    (key : Text) (db : Database) → IsDistinct db → IsDistinct (remove_expired_unlocked key db)
unfolding remove_expired_unlocked
remove-IsDistinct key db h = record {
  store = erase-HasDistinctKeys key db.store h.store;
  list_store = erase-HasDistinctKeys key db.list_store h.list_store;
  expiry = erase-HasDistinctKeys key db.expiry h.expiry;
}

set-IsDistinct : (key value : Text) (db : Database) → IsDistinct db → IsDistinct (set key value db)
unfolding set
set-IsDistinct key value db h = record {
  store = assign-HasDistinctKeys key value db.store h.store;
  list_store = erase-HasDistinctKeys key db.list_store h.list_store;
  expiry = erase-HasDistinctKeys key db.expiry h.expiry;
}

forget-IsDistinct : (key : Text) (db : Database) → IsDistinct db → IsDistinct (forget_list key db)
unfolding forget_list
forget-IsDistinct key db h = record {
  store = h.store;
  list_store = erase-HasDistinctKeys key db.list_store h.list_store;
  expiry = erase-HasDistinctKeys key db.expiry h.expiry;
}

put_list-IsDistinct :
    (key : Text) (l : List Text) (db : Database)
    → IsDistinct db
    → IsDistinct (record db { list_store = assign key l db.list_store })
put_list-IsDistinct key l db h = record {
  store = h.store;
  list_store = assign-HasDistinctKeys key l db.list_store h.list_store;
  expiry = h.expiry;
}

IsDistinct-closed : IsClosed IsDistinct
IsDistinct-closed = record {
  empty = record { store = tt; list_store = tt; expiry = tt };
  remove = remove-IsDistinct;
  set = set-IsDistinct;
  forget = λ key l db e h. forget-IsDistinct key db h;
  shorten = λ key x xs l db e h. put_list-IsDistinct key (x ∷ xs) db h;
  put_list = λ key x xs db e h. put_list-IsDistinct key (x ∷ xs) db h;
  erase_both = λ key db e h. record {
    store = erase-HasDistinctKeys key db.store h.store;
    list_store = erase-HasDistinctKeys key db.list_store h.list_store;
    expiry = h.expiry;
  };
  assign_deadline = λ key deadline db e h. record {
    store = h.store;
    list_store = h.list_store;
    expiry = assign-HasDistinctKeys key deadline db.expiry h.expiry;
  };
  erase_deadline = λ key db h. record {
    store = h.store;
    list_store = h.list_store;
    expiry = erase-HasDistinctKeys key db.expiry h.expiry;
  };
}

pub run-IsDistinct :
    (ops : List Operation) (db : Database) → IsDistinct db → IsDistinct (run ops db)
run-IsDistinct = run-keeps IsDistinct-closed
