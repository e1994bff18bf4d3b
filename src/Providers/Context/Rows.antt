-- ===== src/Providers/Context/Rows.antt =====
-- When two deliveries of one row meet, no password and no link is lost.
use panshou.Prelude.{◌≡◌, sym, Bool, false, ◌||◌, List, arith, is_some}
use panshou.Prelude.Keyed.{has_key}
use panshou.Prelude.Keyed.Laws.{has_key-absorb_all}
use panshou.Prelude.Keyed.Totals.{total, total-absorb_all_from}
use panshou.Text.{Text, text_eq}
use panshou.Env.{Env}
use panshou.Core.Model.{Link, SearchResult}
use panshou.Core.Merge.Links.{or_IsSum}
use panshou.Providers.Context.{nonempty, update_row_link, row_link_key, update_row}

-- A password that is not the empty text.
abbrev pub has_code : Link → Bool
has_code l = is_some (nonempty l.password)

update_row_link-has_code :
    (old new : Link) → has_code (update_row_link old new) ≡ (has_code old || has_code new)
unfolding update_row_link
update_row_link-has_code old new = ground arith

module _ (env : Env) where
  update_row_link-key :
      (old new : Link)
      → row_link_key env old ≡ row_link_key env new
      → row_link_key env (update_row_link old new) ≡ row_link_key env old
  unfolding update_row_link
  update_row_link-key old new h = sym h

  -- Some link with the URL key has a password.
  abbrev pub some_code : Text → List Link → Bool
  some_code k ls = total (row_link_key env) ◌||◌ false has_code k ls

  -- A row that takes another one in has a link for a URL key exactly if one of the two has, and a
  -- password for it exactly if one of the two has.
  pub update_row_keeps :
      (previous row : SearchResult) (k : Text)
      → (has_key (row_link_key env) k (update_row env previous row).links
          ≡ (has_key (row_link_key env) k previous.links || has_key (row_link_key env) k row.links))
        × (some_code k (update_row env previous row).links
            ≡ (some_code k previous.links || some_code k row.links))
  unfolding update_row
  update_row_keeps previous row k = (
    has_key-absorb_all (row_link_key env) update_row_link update_row_link-key k previous.links
        row.links,
    total-absorb_all_from (row_link_key env) ◌||◌ false has_code update_row_link update_row_link-key
        (λ old new h. update_row_link-has_code old new) (or_IsSum has_code) k previous.links
        row.links,
  )
