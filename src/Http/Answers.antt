-- ===== src/Http/Answers.antt =====
-- app/routes: what the responses of code satisfy that may also raise, and of the request that it serves.
use bank_flow_digital_bankin.Database.{Session, Action, Result, ok, err, Error, after_result, ◌>>=◌}
use bank_flow_digital_bankin.Http.{Response, refuse, internal_error, serve, finish}

module _ (P : Response → Type 0) where
  abbrev pub AnsweredBy : Result Response × Session → Type 0
  AnsweredBy (ok r, s) = P r
  AnsweredBy (err e, s) = Unit

  -- Code whose every response satisfies the predicate.
  pub record AnsweringBy (m : Action Response) : Type 0 where
    pub answered : (s : Session) → AnsweredBy (m s)

  pub bind-AnsweringBy :
      {A : Type 0} (m : Action A) (f : A → Action Response)
      → ((a : A) → AnsweringBy (f a))
      → AnsweringBy (m >>= f)
  bind-AnsweringBy {A} m f h = record { answered = λ s. go (m s).0 (m s).1 }
    where
      go : (r : Result A) (t : Session) → AnsweredBy (after_result r f t)
      go (ok a) t = (h a).answered t
      go (err e) t = tt

  -- An exception that no route catches becomes the response of the application's handler.
  pub serve-AnsweredBy :
      ((e : Error) → P (refuse 500 (internal_error e)))
      → (m : Action Response) (s : Session) → AnsweredBy (m s)
      → P (serve m s).0
  serve-AnsweredBy q m s h = go (m s).0 (m s).1 h
    where
      go : (r : Result Response) (t : Session) → AnsweredBy (r, t) → P (finish r t).0
      go (ok r) t h = h
      go (err e) t h = q e
