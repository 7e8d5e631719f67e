-- ===== src/Lib.antt =====
-- The web client of WGTemporaryEmail (web/): disposable addresses in a browser, permanent mailboxes,
-- and an administration panel, over an HTTP API.
--
-- Parts and files
--  Base        Tests on native numbers and texts, lists, JavaScript objects (Dict), JavaScript strings
--              (Text), and asynchronous code (Task). A task writes a state, reads it, starts another
--              task or waits for an answer. Task/Schedule has every interleaving of a page's tasks,
--              and the rule that proves an invariant of all of them; Task/Ends is the end of a task
--              after a number of answers.
--  Api         web/lib/api.ts. A `Request` is a call of a method of `api`; `wire` is what the method
--              hands to fetch (Wire), and `result` is what it makes of the answer, an `Exchange`.
--  Page        What the pages share: what they wait for, localized phrases, tests on errors and times.
--  Home        web/app/page.tsx, the page of the temporary address. State has the useState variables
--              with the clock, localStorage, which may refuse to be written, the alerts, the route and the
--              interval; Handlers has one task for each function and effect, and Handlers/Requests
--              those that effects and buttons share; Events has what the user, the interval and the
--              clock can start, and `Reachable`.
--  Mailbox     web/app/mailbox/page.tsx, the page of the permanent mailbox: State, Handlers and Events as
--              for Home; Answers has what answers do to the session.
--  Banner      web/components/domain-banner.tsx: when the banner shows, and its dismissal.
--  Utils       web/lib/utils.ts: formatBytes, formatRelativeTime, sanitizeHtml and copyToClipboard.
--  Setup       web/app/setup/page.tsx: updateDomain, generateToken and handleSave; Save and Token have
--              what they send and make, Opened the first effect, the rows and copyToken.
--  Docs        web/app/api/page.tsx, the page that documents the API and tries it: the tables
--              (Endpoints), the values and the URL (Url), the body (Payload), the state and the
--              handlers (Run); Tried has what a test sends, Ending that it ends, Escaping where a
--              value goes, and Wire compares the tables with the client of the panel.
--  I18n        web/lib/i18n/index.tsx. Dictionary has deepMerge, getValue, interpolate and lookup;
--              Language has resolveLang; Provider has I18nProvider with its effects and
--              setLang. English is web/lib/i18n/en.ts, and English/Spoken the phrases of the code that
--              have a text there; SimplifiedChinese and TraditionalChinese are zh-CN.ts and zh-TW.ts
--              with extra-zh.ts, German and Portuguese de.ts and pt.ts with extra-dept.ts, and
--              Translated compares them with the English texts.
--  Admin       web/lib/admin-api.ts (Types, Requests, Client, Display), web/app/admin/page.tsx and
--              web/app/admin/layout.tsx (Login, Layout). Panel is what the pages behind the sign-in
--              share: the stored token, and a request that may end the session. Config is
--              web/app/admin/config/page.tsx: the form (Fields), the patch (Patch), the secrets
--              (Redact), the state and the handlers (Handlers); Sent, Untouched and Ending have what a
--              save sends and that the handlers end. Listing is the lists of addresses and
--              of emails, one page over the methods that each calls. Domains, Mailboxes, Cleanup and
--              Dashboard are the pages of those names.
-- Tests, in each part, has runs at concrete inputs; Admin/PageTests those of the smaller pages.
--
-- How the parts interact
--  A page's task asks for a `Request`; `request` of Page hands the `Exchange` to `result` of Api, and
--  the task goes on with a value or with what the method throws. A phrase stays a key with variables
--  until lookup of I18n answers its text.
--
-- Correspondence
--  A handler is given the render whose closure it is, as JavaScript captures that render's state, and
--  writes the page as it is when it runs. Between two waits a task runs without interruption; after
--  each such stretch `commit` stands for the render and its effects. An answer is arbitrary: a
--  rejection, or a status with a body that is JSON or not.
--
-- Bounds
--  The polling of the certificate has 36 rounds, as in the source, and is structural in them.
--  createNewAddress and fetchEmails call one another, so fetch_emails takes a number of rounds. Each
--  statement holds for every number of rounds, and Home/Rotation compares them.
--  The logarithm of formatBytes is repeated division, with four divisions: enough below 1024 ^ 5 - 3,
--  from where the quotient of the rounded logarithms is 5 for every safe integer.
--  Numbers are natural; a date text is read as its milliseconds since 1970, or as no time. Characters
--  are code points, and toLowerCase folds A to Z.
--
-- Not modelled
--  Markup and styles; a failing localStorage on the page of the mailbox, and a failing read of it on
--  the page of the temporary address; the browser's Intl formats and URLSearchParams' encoding;
--  members that objects inherit; stored JSON that is not of the stored type; the dictionaries of the other eleven
--  languages, which are data of the same shape; the static pages and the switchers; the backend (api/,
--  Python), the mail exchanger (mx/, Go), db/, certbot/ and setup.sh. JavaScript's Number and JSON
--  are parameters of the set-up, of the configuration and of the page of the API.
pub mod Admin
pub mod Api
pub mod Banner
pub mod Base
pub mod Docs
pub mod Home
pub mod I18n
pub mod Mailbox
pub mod Page
pub mod Setup
pub mod Utils
