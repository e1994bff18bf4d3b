-- ===== src/Providers/Context/Sealing.antt =====
-- A finished context is sealed: nothing that comes later changes its snapshot.
use panshou.Prelude.{
  ℕ, ◌≡◌, refl, sym, ◌∙◌, ap, true, false, List, [], ◌∷◌, ◌++◌, arith, ◌==◌, if◌then◌else◌,
  append_assoc, Bool-cases, inl, inr,
}
use panshou.Env.{Env}
use panshou.Core.Model.{SearchResult}
use panshou.Providers.Context.{SearchContext, remaining, publish, is_cancelled, rows_of, finish}

-- What a source, a clone of its context or the engine may call.
pub data Call : Type 0 where
  publishes : (now : ℕ) → List SearchResult → Call
  finishes : List SearchResult → Call

module _ (env : Env) where
  pub after : SearchContext → List Call → SearchContext
  unfolding publish finish
  after ctx [] = ctx
  after ctx (publishes now rs ∷ calls) = after (publish now ctx rs).0 calls
  after ctx (finishes rs ∷ calls) = after (finish env ctx rs).0 calls

  publish_sealed :
      (now : ℕ) (ctx : SearchContext) (rs : List SearchResult)
      → ctx.collector.sealed ≡ true
      → publish now ctx rs ≡ (ctx, false)
  unfolding publish
  publish_sealed now ctx rs h = rw h

  finish_sealed :
      (ctx : SearchContext) (rs : List SearchResult)
      → ctx.collector.sealed ≡ true
      → finish env ctx rs ≡ (ctx, rows_of env ctx.collector.results)
  unfolding finish
  finish_sealed ctx rs h = rw h

  finish-sealed :
      (ctx : SearchContext) (rs : List SearchResult) → (finish env ctx rs).0.collector.sealed ≡ true
  unfolding finish
  finish-sealed ctx rs = ground arith

  finish-rows :
      (ctx : SearchContext) (rs : List SearchResult)
      → (finish env ctx rs).1 ≡ rows_of env (finish env ctx rs).0.collector.results
  unfolding finish
  finish-rows ctx rs = refl

  after_sealed :
      (ctx : SearchContext) (calls : List Call)
      → ctx.collector.sealed ≡ true
      → after ctx calls ≡ ctx
  unfolding after
  after_sealed ctx [] h = refl
  after_sealed ctx (publishes now rs ∷ calls) h =
      ap (λ p. after p.0 calls) (publish_sealed now ctx rs h) ∙ after_sealed ctx calls h
  after_sealed ctx (finishes rs ∷ calls) h =
      ap (λ p. after p.0 calls) (finish_sealed ctx rs h) ∙ after_sealed ctx calls h

  -- After `finish` no sequence of calls changes the context: a later `publish` is refused at any
  -- time, and a later `finish` returns the same rows whatever it is given.
  pub finish_seals :
      (ctx : SearchContext) (rs late : List SearchResult) (calls : List Call) (now : ℕ)
      → let sealed = (finish env ctx rs).0 in
        (after sealed calls ≡ sealed)
        × ((publish now (after sealed calls) late).1 ≡ false)
        × ((finish env (after sealed calls) late).1 ≡ (finish env ctx rs).1)
  finish_seals ctx rs late calls now =
      let sealed = (finish env ctx rs).0 in
      let shut = finish-sealed ctx rs in
      rw (after_sealed sealed calls shut) (
        refl,
        ap (λ p. p.1) (publish_sealed now sealed late shut),
        ap (λ p. p.1) (finish_sealed sealed late shut) ∙ sym (finish-rows ctx rs),
      )

  -- The snapshot of a context that was not finished before holds what was published in time, then the
  -- last batch, in order: a publication after the deadline adds nothing.
  pub finish-publish :
      (ctx : SearchContext) (now : ℕ) (early last : List SearchResult)
      → ctx.collector.sealed ≡ false
      → (finish env (publish now ctx early).0 last).1
        ≡ rows_of env
            (ctx.collector.results ++ (if is_cancelled now ctx then last else early ++ last))
  unfolding finish publish is_cancelled
  finish-publish ctx now early last h = elim (Bool-cases (remaining now ctx == 0)) [
    | inl late ↦ rw (publish, h, late) refl
    | inr open_still ↦ rw (publish, h, open_still) (simp append_assoc)
  ]
