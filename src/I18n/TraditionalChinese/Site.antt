-- ===== src/I18n/TraditionalChinese/Site.antt =====
-- web/lib/i18n/zh-TW.ts: the traditional Chinese texts of the public pages.
use wgtemporary_email.Base.{String, [], ◌∷◌}
use wgtemporary_email.Base.Dict.{Dict}

abbrev pub zh_tw_nav : Dict String
zh_tw_nav =
    ("about", "關於")
    ∷ ("privacy", "隱私")
    ∷ ("api", "API")
    ∷ ("permanentMailbox", "長效信箱")
    ∷ ("tempMailbox", "臨時信箱")
    ∷ []

abbrev pub zh_tw_home : Dict String
zh_tw_home =
    ("yourTempEmail", "你的臨時信箱")
    ∷ ("readyDesc", "你的臨時信箱已就緒，將在 {time} 後自動刪除。")
    ∷ ("loading", "載入中...")
    ∷ ("copy", "複製")
    ∷ ("copied", "已複製")
    ∷ ("newEmail", "新信箱")
    ∷ ("expiresIn", "{time} 後過期")
    ∷ ("inbox", "收件匣")
    ∷ ("auto", "自動")
    ∷ ("searchEmails", "搜尋郵件...")
    ∷ ("clearSearch", "清除搜尋")
    ∷ ("noEmailsYet", "尚無郵件")
    ∷ ("autoRefreshingEvery", "每 {sec} 秒自動重新整理")
    ∷ ("noSubject", "（無主旨）")
    ∷ ("newBadge", "新")
    ∷ ("selectAnEmail", "選擇一封郵件")
    ∷ ("viewContents", "選擇一封郵件以檢視內容")
    ∷ ("html", "HTML")
    ∷ ("plain", "純文字")
    ∷ ("from", "寄件者：")
    ∷ ("to", "收件者：")
    ∷ ("date", "日期：")
    ∷ ("dkimValid", "DKIM 有效")
    ∷ ("dkimInvalid", "DKIM 無效")
    ∷ ("spf", "SPF：{v}")
    ∷ ("dmarc", "DMARC：{v}")
    ∷ ("attachmentsCount", "{n} 個附件")
    ∷ ("attachments", "附件")
    ∷ ("noContent", "無內容")
    ∷ ("lastRefreshed", "上次重新整理：{time} • 自動重新整理已開啟")
    ∷ ("footerText", "WGTemporaryEmail - 開源臨時信箱服務")
    ∷ ("dialogTitle", "產生新信箱")
    ∷ ("dialogDesc", "建立新的臨時信箱地址。使用者名稱留空則產生隨機地址。")
    ∷ ("customNamePlaceholder", "自訂名稱（選填）")
    ∷ ("dialogHint", "留空產生隨機信箱地址，或輸入自訂使用者名稱（3-64 字元，英數字 + . _ -）")
    ∷ ("generateEmail", "產生信箱")
    ∷ ("creating", "產生中...")
    ∷ ("usernameTaken", "該使用者名稱已被使用，請更換名稱或留空以產生隨機信箱地址。")
    ∷ ("failedToCreate", "建立信箱地址失敗，請重試。")
    ∷ ("rateLimited", "請求過於頻繁（限流依 IP 計算），請等約 1 分鐘後再試。")
    ∷ ("failedToLoad", "載入郵件失敗，請重試。")
    ∷ ("failedToDelete", "刪除郵件失敗，請重試。")
    ∷ ("deleteEmailConfirm", "確定刪除這封郵件嗎？")
    ∷ ("expiredNewAddress", "{old} 已過期。新地址：{new}")
    ∷ ("expiredNow", "已過期，正在為你產生新地址…")
    ∷ []

abbrev pub zh_tw_about : Dict String
zh_tw_about =
    ("aboutTitle", "關於 WGTemporaryEmail")
    ∷ ("aboutDesc", "一個隱私優先的一次性臨時信箱服務，開源、自架、無廣告、無追蹤。")
    ∷ (
      "aboutP1",
      "開啟首頁即可獲得一個臨時信箱地址，無需註冊、無需提供任何個人資訊。用它接收驗證碼、註冊測試帳號、訂閱試用，保護你的真實信箱免受垃圾郵件騷擾。地址與郵件會在設定時間後自動刪除。",
    )
    ∷ ("aboutP2", "本專案以容器化方式部署（PostgreSQL + FastAPI + Go 郵件伺服器 + 網頁前端），你可以輕鬆部署到自己的伺服器上運行。")
    ∷ ("feature1T", "即時產生")
    ∷ ("feature1D", "一鍵產生隨機地址，亦支援自訂使用者名稱")
    ∷ ("feature2T", "自動過期")
    ∷ ("feature2D", "地址與郵件到期自動清理，不留痕跡")
    ∷ ("feature3T", "安全檢查")
    ∷ ("feature3D", "顯示 DKIM / SPF / DMARC 檢查結果")
    ∷ ("feature4T", "完整郵件支援")
    ∷ ("feature4D", "HTML / 純文字 / 附件 / 原始郵件下載")
    ∷ ("feature5T", "完全開源")
    ∷ ("feature5D", "原始碼公開，可自行審查與二次開發")
    ∷ ("feature6T", "無廣告無追蹤")
    ∷ ("feature6D", "不投放廣告，不執行任何追蹤指令碼")
    ∷ ("relationTitle", "與原始專案的關係")
    ∷ ("relationDesc", "開源精神，站在前人的肩膀上")
    ∷ ("relationP1", "WGTemporaryEmail 並非從零開始的專案，它基於以下兩個優秀開源專案整合建構：")
    ∷ (
      "relationP2",
      "在上述原始專案的基礎上，本專案擴充了：中文管理面板（統計、郵件/地址/網域管理、設定熱更新）、首次訪問設定精靈、安全強化（速率限制、XSS 消毒、依賴安全更新）、儲存上限與自動清理等能力。",
    )
    ∷ ("relationP3", "所有原始專案與本專案均採用 MIT 授權，保留原作者版權聲明。感謝 Lm36 的出色工作。")
    ∷ ("sourceTitle", "原始碼")
    ∷ ("sourceDesc", "歡迎 Star、Fork 與提交 Issue")
    ∷ ("sourceNote", "問題回報與功能建議請透過 GitHub Issues 提交。")
    ∷ ("demoLabel", "示範站點")
    ∷ []

abbrev pub zh_tw_privacy : Dict String
zh_tw_privacy =
    ("privacyTitle", "隱私政策")
    ∷ ("privacyDesc", "WGTemporaryEmail 以隱私為設計核心：無需註冊、無廣告、無追蹤。本頁說明服務如何儲存與處理資料。")
    ∷ ("scopeNote", "本政策適用於本臨時信箱服務實例（以下稱「本服務」）。")
    ∷ ("collectTitle", "我們收集與儲存的資料")
    ∷ ("collectP1", "為提供收信功能，本服務會在伺服器端儲存以下內容：")
    ∷ ("collectL1", "你建立的臨時信箱地址及其過期時間")
    ∷ ("collectL2", "寄往該地址的郵件，包括寄件者、主旨、內文與附件")
    ∷ ("collectL3", "該地址對應的隨機存取權杖（用於驗證你對此信箱的存取權）")
    ∷ ("collectP2", "你的瀏覽器本地（localStorage）會儲存目前信箱地址與權杖，以便下次開啟時繼續使用。這些資訊僅儲存在你自己的裝置上。")
    ∷ ("retentionTitle", "資料保留與刪除")
    ∷ ("retentionL1", "地址與郵件預設保留 24 小時，到期後由系統自動刪除（保留時間可能因服務設定而異）")
    ∷ ("permanentMailboxNote", "長效信箱：地址會持續保留直到您自行刪除；其郵件在營運方設定的保留期（預設 30 天）後自動刪除。")
    ∷ ("retentionL2", "你可以隨時在介面中手動刪除郵件")
    ∷ ("retentionL3", "超過單一地址郵件數上限時，最早的郵件會被自動清理")
    ∷ ("retentionL4", "刪除後的資料無法復原")
    ∷ ("storageNote", "當全站郵件總量超過設定的儲存上限時，最舊的郵件會被自動刪除。")
    ∷ ("notCollectTitle", "我們不收集的資訊")
    ∷ ("notCollectL1", "無需註冊或登入，不要求提供姓名、真實信箱、手機號碼等任何個人資訊")
    ∷ ("notCollectL2", "不投放廣告，不執行任何第三方追蹤或統計分析指令碼")
    ∷ ("notCollectL3", "不向任何第三方出售、共享或轉讓資料")
    ∷ ("securityTitle", "郵件內容與安全")
    ∷ ("securityL1", "郵件內文與附件儲存於伺服器端資料庫，隨郵件一併刪除")
    ∷ ("securityL2", "HTML 郵件在渲染前經過淨化處理，防止惡意指令碼執行")
    ∷ ("securityL3", "存取信箱需持有對應的隨機存取權杖，請勿將權杖洩露給他人")
    ∷ ("securityL4", "服務會顯示 DKIM / SPF / DMARC 檢查結果供參考")
    ∷ ("tlsNote", "郵件傳輸使用 STARTTLS 加密（TLS 1.2/1.3）；網頁面板透過 HTTPS 提供服務。")
    ∷ ("disclaimerTitle", "使用建議與免責聲明")
    ∷ (
      "disclaimerP1",
      "臨時信箱適合接收驗證碼、測試註冊等一次性情境。請勿將其用於：重要帳號的綁定、銀行/支付等敏感服務、或接收任何你無法承受遺失的郵件——地址到期後所有郵件將被永久刪除。",
    )
    ∷ ("disclaimerP2", "請勿透過臨時信箱傳送或接收敏感個人資訊。本服務不對資料刪除造成的影響承擔責任。")
    ∷ ("contactTitle", "聯絡我們")
    ∷ ("contactP1", "本專案完全開源，原始碼見：")
    ∷ ("contactP2", "對隱私政策有疑問或需要刪除資料，請透過 GitHub Issues 聯絡我們。")
    ∷ []

abbrev pub zh_tw_mailbox : Dict String
zh_tw_mailbox =
    ("title", "長效信箱")
    ∷ ("desc", "信箱地址永久保留，郵件預設保留 30 天。請妥善保存存取權杖。")
    ∷ ("createTitle", "建立長效信箱")
    ∷ ("usernamePlaceholder", "yourname")
    ∷ ("createBtn", "建立長效信箱")
    ∷ ("creating", "建立中...")
    ∷ ("createdNote", "建立成功！請立即保存存取權杖（僅顯示這一次）：")
    ∷ ("copyToken", "複製權杖")
    ∷ ("showToken", "顯示權杖")
    ∷ ("hideToken", "隱藏權杖")
    ∷ ("copied", "已複製")
    ∷ ("loginTitle", "登入長效信箱")
    ∷ ("tokenPlaceholder", "輸入存取權杖")
    ∷ ("loginBtn", "登入")
    ∷ ("logout", "登出")
    ∷ ("myEmail", "我的信箱：{email}")
    ∷ ("retentionNote", "郵件預設保留 {days} 天，信箱地址永久有效")
    ∷ ("noEmails", "暫無郵件")
    ∷ ("noSubject", "（無主旨）")
    ∷ ("new", "新")
    ∷ ("noContent", "無內容")
    ∷ ("attachments", "附件")
    ∷ ("deleteEmail", "刪除此郵件")
    ∷ ("deleteConfirm", "確定刪除這封郵件嗎？")
    ∷ ("failedCreate", "建立失敗，請重試")
    ∷ ("failedLogin", "權杖無效或信箱不存在")
    ∷ ("usernameTaken", "該使用者名稱已被使用")
    ∷ ("needUsername", "請輸入使用者名稱")
    ∷ []
