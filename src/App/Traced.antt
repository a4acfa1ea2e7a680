-- ===== src/App/Traced.antt =====
-- The request id, in the response and in the lines.
use mathlib.Core.List.{append_assoc}
use ticket_triage.Base.{◌≡◌, refl, ◌∙◌, none, some, List, [], ◌∷◌, ◌++◌, map, All, All-append, ap}
use ticket_triage.Text.{Text, codes, text_eq, same}
use ticket_triage.Json.{str}
use ticket_triage.Logging.{
  Dict, put, get, update, Context, or_empty, LogRecord, extras, format, head_fields,
}
use ticket_triage.Logging.Lines.{
  get-put, get-update_present, put-Unique, Unique, get-format, get-format_absent,
}
use ticket_triage.App.{
  Request, Response, Handled, responded, raised, Handler, Server, request_id_of, Moment,
  request_fields, completed_record, request_context, unhandled_record, serve,
}

abbrev pub x_request_id : Text
x_request_id = codes "X-Request-ID"

abbrev pub request_id : Text
request_id = codes "request_id"

-- No record of the handler names the field itself.
abbrev pub Silent : List LogRecord → Type 0
Silent records = All (λ (r : LogRecord). get request_id (extras r.attributes) ≡ none) records

-- What the middleware sees of a response.
abbrev pub Echoes : Text → Handled → Type 0
Echoes id (responded r) = get x_request_id r.headers ≡ some (str id)
Echoes id (raised e) = Unit

bound : Text → Request → Context → Dict
bound id req context = update (or_empty context) (request_fields id req)

bound-request_id :
    (id : Text) (req : Request) (context : Context)
    → get request_id (bound id req context) ≡ some (str id)
unfolding bound update same
bound-request_id id req context =
    get-put (codes "route") request_id (str req.path) (put request_id (str id) (or_empty context))
    ∙ get-put request_id request_id (str id) (or_empty context)

bound-Unique :
    (id : Text) (req : Request) (context : Context)
    → Unique (or_empty context)
    → Unique (bound id req context)
unfolding bound update
bound-Unique id req context u =
    put-Unique (codes "route") (str req.path) (put request_id (str id) (or_empty context))
      (put-Unique request_id (str id) (or_empty context) u)

lines-traced :
    (id : Text) (d : Dict) (records : List LogRecord)
    → Unique d
    → get request_id d ≡ some (str id)
    → Silent records
    → All (λ line. get request_id line ≡ some (str id)) (map (format (some d)) records)
unfolding same
lines-traced id d [] u h silent = tt
lines-traced id d (r ∷ rs) u h silent =
    (get-format request_id d r u h silent.0 refl, lines-traced id d rs u h silent.1)

completed-traced :
    (id : Text) (req : Request) (m : Moment) (r : Response) (context : Context)
    → get request_id (format context (completed_record id req m r)) ≡ some (str id)
unfolding format extras same get
completed-traced id req m r context =
    get-update_present request_id
      (update (head_fields (completed_record id req m r)) (or_empty context))
      (extras (completed_record id req m r).attributes) (refl, (refl, (refl, (refl, (refl, tt)))))
      refl

-- The request's id is the `X-Request-ID` of its headers, if that is not empty, and else the new one.
-- Every line that is written for the request carries it, where the records of the handler do not name
-- `request_id` themselves; a response has it as its `X-Request-ID`; and after the request, also one
-- that ends in an exception, the context is what it was before.
pub request_context-Traced :
    (req : Request) (m : Moment) (handler : Handler) (s : Server)
    → Unique (or_empty s.context)
    → Silent handler.0
    → let id = request_id_of req.request_id_header m.fresh in
      let result = request_context req m handler s in
      Echoes id result.0
      × (result.1.context ≡ s.context)
      × ((new : List Dict) × (result.1.lines ≡ s.lines ++ new)
          × All (λ line. get request_id line ≡ some (str id)) new)
unfolding request_context same bound
request_context-Traced req m (records, responded r) s u silent =
    let id = request_id_of req.request_id_header m.fresh in
    let d = bound id req s.context in
    let inner = map (format (some d)) records in
    let last = format s.context (completed_record id req m r) in
    (
      get-put x_request_id x_request_id (str id) r.headers,
      refl,
      (
        inner ++ last ∷ [],
        append_assoc s.lines inner (last ∷ []),
        All-append _ inner (last ∷ [])
            (lines-traced id d records (bound-Unique id req s.context u)
              (bound-request_id id req s.context) silent)
            (completed-traced id req m r s.context, tt),
      ),
    )
request_context-Traced req m (records, raised e) s u silent =
    let id = request_id_of req.request_id_header m.fresh in
    let d = bound id req s.context in
    (
      tt,
      refl,
      (
        map (format (some d)) records,
        refl,
        lines-traced id d records (bound-Unique id req s.context u)
            (bound-request_id id req s.context) silent,
      ),
    )

-- An exception that no inner handler takes is answered outside of the middleware: outside of any
-- request's context, the response has no `X-Request-ID`, and the line of the error, which is the last
-- one, no `request_id`.
pub serve-untraced :
    (req : Request) (m : Moment) (records : List LogRecord) (e : Text) (s : Server)
    → s.context ≡ none
    → let result = serve req m (records, raised e) s in
      (get x_request_id result.0.headers ≡ none)
      × (result.0.status_code ≡ 500)
      × ((before : List Dict) × (line : Dict) × (result.1.lines ≡ before ++ line ∷ [])
          × (get request_id line ≡ none))
unfolding serve get extras same bound
serve-untraced req m records e s h =
    let id = request_id_of req.request_id_header m.fresh in
    let before = s.lines ++ map (format (some (bound id req s.context))) records in
    (
      refl,
      refl,
      (
        before,
        format none (unhandled_record m e),
        ap (λ c. before ++ format c (unhandled_record m e) ∷ []) h,
        get-format_absent request_id (unhandled_record m e) refl refl refl,
      ),
    )
