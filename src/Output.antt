-- ===== src/Output.antt =====
-- inspect/output/writer.go: Write. Rendering, encoding/json and the file system are arguments.
use we_term.Model.Report.{InspectReport}
use we_term.Prelude.{Option, String, none, some, ◌≡◌, refl}
use we_term.Prelude.Attempt.{Attempt, done, fail}
use we_term.Prelude.Text.{append}

-- The two files in the output directory, as far as they exist.
pub record Reports : Type 0 where
  pub html : Option String
  pub json : Option String

-- How os.WriteFile ends: the whole text is written, or there is an error and the file holds
-- something else.
pub data Put : Type 0 where
  whole : Put
  torn : Option String → String → Put

-- What Write meets: os.MkdirAll, RenderHTML, os.WriteFile, json.MarshalIndent, filepath.Join and
-- filepath.Abs, with none for an error of the last.
pub record Writer (F : Type 0) : Type 0 where
  pub dir_error : Option String
  pub render : InspectReport F → Attempt String String
  pub html_put : Put
  pub marshal : InspectReport F → Attempt String String
  pub json_put : Put
  pub join_path : String → String → String
  pub absolute : String → Option String

module _ {F : Type 0} (w : Writer F) (report : InspectReport F) (dir : String) where
  unfoldable pub html_path : String
  html_path = w.join_path dir "weops_inspection.html"

  -- the path that Write returns
  unfoldable pub returned_path : Option String → String
  returned_path none = html_path
  returned_path (some path) = path

  unfoldable pub put_json : Option String → String → Put → Reports × Attempt String String
  put_json html text whole =
      (record { html = html; json = some text }, done (returned_path (w.absolute html_path)))
  put_json html text (torn left e) =
      (record { html = html; json = left }, fail (append "write JSON: " e))

  unfoldable pub write_json : Reports → Attempt String String → Reports × Attempt String String
  write_json files (fail e) = (files, fail (append "marshal JSON: " e))
  write_json files (done text) = put_json files.html text w.json_put

  unfoldable pub put_html : Reports → String → Put → Reports × Attempt String String
  put_html files text whole = write_json (record files { html = some text }) (w.marshal report)
  put_html files text (torn left e) = (record files { html = left }, fail (append "write HTML: " e))

  unfoldable pub write_html : Reports → Attempt String String → Reports × Attempt String String
  write_html files (fail e) = (files, fail (append "render HTML: " e))
  write_html files (done text) = put_html files text w.html_put

  unfoldable pub write_dir : Reports → Option String → Reports × Attempt String String
  write_dir files (some e) = (files, fail (append "create output dir: " e))
  write_dir files none = write_html files (w.render report)

  -- Write: the files that it leaves, and what it returns
  unfoldable pub write_reports : Reports → Reports × Attempt String String
  write_reports files = write_dir files w.dir_error

  -- The two files hold the report, rendered and encoded.
  abbrev pub Hold : Reports → Type 0
  Hold files =
      (html : String) × (json : String) × (w.render report ≡ done html)
      × (w.marshal report ≡ done json)
      × (files.html ≡ some html)
      × (files.json ≡ some json)

  put_json-Hold :
      (html text path : String) (put : Put)
      → w.render report ≡ done html
      → w.marshal report ≡ done text
      → (put_json (some html) text put).1 ≡ done path
      → Hold (put_json (some html) text put).0
  unfolding put_json
  put_json-Hold html text path whole r m h = (html, text, r, m, refl, refl)
  put_json-Hold html text path (torn left e) r m h = absurd (cc h)

  write_json-Hold :
      (html path : String) (files : Reports) (answer : Attempt String String)
      → w.render report ≡ done html
      → w.marshal report ≡ answer
      → files.html ≡ some html
      → (write_json files answer).1 ≡ done path
      → Hold (write_json files answer).0
  unfolding write_json
  write_json-Hold html path files (fail e) r m f h = absurd (cc h)
  write_json-Hold html path files (done text) r m f h =
      rw f (put_json-Hold html text path w.json_put r m (rw f at h))

  put_html-Hold :
      (html path : String) (files : Reports) (put : Put)
      → w.render report ≡ done html
      → (put_html files html put).1 ≡ done path
      → Hold (put_html files html put).0
  unfolding put_html
  put_html-Hold html path files whole r h =
      write_json-Hold html path (record files { html = some html }) (w.marshal report) r refl refl h
  put_html-Hold html path files (torn left e) r h = absurd (cc h)

  write_html-Hold :
      (path : String) (files : Reports) (answer : Attempt String String)
      → w.render report ≡ answer
      → (write_html files answer).1 ≡ done path
      → Hold (write_html files answer).0
  unfolding write_html
  write_html-Hold path files (fail e) r h = absurd (cc h)
  write_html-Hold path files (done html) r h = put_html-Hold html path files w.html_put r h

  write_dir-Hold :
      (path : String) (files : Reports) (error : Option String)
      → (write_dir files error).1 ≡ done path
      → Hold (write_dir files error).0
  unfolding write_dir
  write_dir-Hold path files (some e) h = absurd (cc h)
  write_dir-Hold path files none h = write_html-Hold path files (w.render report) refl h

  -- When Write returns a path, both files hold the report that it was given.
  pub write_reports-Hold :
      (path : String) (files : Reports)
      → (write_reports files).1 ≡ done path
      → Hold (write_reports files).0
  unfolding write_reports
  write_reports-Hold path files h = write_dir-Hold path files w.dir_error h
