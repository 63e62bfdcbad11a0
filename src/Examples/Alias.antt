-- ===== src/Examples/Alias.antt =====
-- The theorems on aliases, at a store of one alias.
use vearch.Prelude.{[], ◌∷◌, leb, ◌&&◌, ok, eq_iff, arith, ◌≡◌, ◌≢◌, refl}
use vearch.Auth.Names.{first_rune, has_forbidden, is_forbidden}
use vearch.Auth.Roles.{Store, stm_get, committed, as_param_error}
use vearch.Alias.{
  Alias, AliasEnv, alias_key, validate_alias, put_alias, create_alias_txn, create_alias,
  decoded_alias, query_alias, delete_alias, must_exist, update_alias,
}

abbrev news : Alias
news = record { name = "news"; db_name = "d"; space_name = "s" }

abbrev calm : AliasEnv
calm = record {
  prefix_alias = "/alias/";
  is_number = λ r. leb 48 r && leb r 57;
  marshal = λ _. ok "news";
  unmarshal = λ _ _. ok news;
  get = ok tt;
  lock = ok tt;
  commit = ok tt;
}

abbrev one_alias : Store
one_alias = ("/alias/news", "news") ∷ []

news-created : create_alias calm news [] ≡ (ok tt, one_alias)
unfolding create_alias create_alias_txn stm_get put_alias committed alias_key validate_alias
    first_rune has_forbidden is_forbidden
news-created = refl

news-updated : update_alias calm news one_alias ≡ (ok tt, one_alias)
unfolding update_alias must_exist put_alias committed alias_key
news-updated = refl

news-deleted : delete_alias calm "news" one_alias ≡ (ok tt, [])
unfolding delete_alias query_alias decoded_alias as_param_error alias_key committed
news-deleted = refl

news-is_text : news.name ≢ ""
news-is_text e = absurd (let h = (eq_iff "news" "").1 e in ground arith)

news-found : query_alias calm "news" one_alias ≡ ok news
unfolding query_alias decoded_alias as_param_error alias_key
news-found = refl
