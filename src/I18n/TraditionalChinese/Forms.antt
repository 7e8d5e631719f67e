-- ===== src/I18n/TraditionalChinese/Forms.antt =====
-- web/lib/i18n/extra-zh.ts: the traditional Chinese texts of the set-up, the API page
-- and the banner.
use wgtemporary_email.Base.{String, [], ◌∷◌}
use wgtemporary_email.Base.Dict.{Dict}

abbrev pub zh_tw_banner : Dict String
zh_tw_banner = ("text", "你正在透過 {host} 存取，建議改用正式網域：") ∷ ("goto", "前往") ∷ ("dismiss", "不再提示") ∷ []

abbrev pub zh_tw_setup : Dict String
zh_tw_setup =
    ("setupTitle", "首次設定")
    ∷ ("setupIntro", "首次使用前請完成以下設定。完成後可隨時在管理面板中修改。")
    ∷ ("setupKeySection", "一次性安裝金鑰")
    ∷ ("setupKeyDesc", "服務啟動時會列印：docker compose logs api | grep 'Setup key'。避免未初始化的執行個體被他人搶先接管。")
    ∷ ("setupKeyPlaceholder", "貼上伺服器日誌中的安裝金鑰")
    ∷ ("domainsSection", "收信網域")
    ∷ ("domainsDesc", "本服務接收郵件的網域（至少一個），例如你的網域 example.com")
    ∷ ("addDomain", "新增網域")
    ∷ ("hostnameSection", "郵件伺服器主機名稱")
    ∷ ("hostnameDesc", "MX 記錄指向的主機名稱，DNS 中該名稱的 A 記錄應指向本伺服器")
    ∷ ("tokenSection", "管理權杖")
    ∷ ("tokenDesc", "登入管理面板（/admin）所需的權杖，留空則自動產生")
    ∷ ("tokenPlaceholder", "留空自動產生")
    ∷ ("generate", "隨機產生")
    ∷ ("optionalSection", "選用設定")
    ∷ ("optionalDesc", "以下均可在管理面板中隨時修改")
    ∷ ("lifetimeLabel", "地址有效期（小時）")
    ∷ ("storageLabel", "總儲存上限（MB，0 不限制）")
    ∷ ("allowCustom", "允許使用者自訂信箱使用者名稱")
    ∷ ("serverIpLabel", "伺服器公網 IP（用於產生 DNS 記錄提示）")
    ∷ ("serverIpPlaceholder", "例如 216.238.53.44")
    ∷ ("webHostnameLabel", "面板存取網域（選填）")
    ∷ ("webHostnameHint", "用於存取網頁面板的正式網域，例如 mail.example.com；留空則使用郵件主機名稱。")
    ∷ ("webHostnamePlaceholder", "mail.example.com")
    ∷ ("saveBtn", "儲存並完成初始化")
    ∷ ("saving", "儲存中...")
    ∷ ("needDomain", "請至少填寫一個網域")
    ∷ ("needHostname", "請填寫郵件伺服器主機名稱")
    ∷ ("networkError", "網路錯誤，請重試")
    ∷ ("doneTitle", "初始化完成")
    ∷ ("doneDesc", "服務已就緒。請先儲存下面的資訊，再按提示設定 DNS。")
    ∷ ("tokenLabel", "管理面板權杖（僅顯示這一次，請妥善保存）")
    ∷ ("copied", "已複製")
    ∷ ("copy", "複製")
    ∷ ("dnsLabel", "需要新增的 DNS 記錄")
    ∷ ("aRecord", "A 記錄：")
    ∷ ("mxRecord", "MX 記錄（{domain}）：")
    ∷ ("ptrHint", "建議同時向 VPS 服務商申請把 {ip} 的反解（PTR）設定為 {hostname}。")
    ∷ ("yourServerIp", "你的伺服器IP")
    ∷ ("openSite", "開啟使用者前端")
    ∷ ("openAdmin", "開啟管理面板")
    ∷ ("backendUnreachable", "無法連線後端服務，請確認服務已啟動")
    ∷ []

abbrev pub zh_tw_api : Dict String
zh_tw_api =
    ("apiTitle", "API 文件")
    ∷ ("apiDesc", "WGTemporaryEmail 完整 REST API 參考。所有唯讀介面都可以一鍵線上測試。")
    ∷ ("invalidJson", "JSON 格式有誤")
    ∷ ("baseUrlLabel", "基礎位址")
    ∷ ("authUserNote", "使用者 API：建立地址時（POST /api/v1/addresses）傳回存取權杖，用於 URL 路徑中。")
    ∷ ("authAdminNote", "管理 API：需要在請求標頭中攜帶管理權杖：Authorization: Bearer <admin.token>。")
    ∷ ("publicSection", "使用者 API（公開）")
    ∷ ("adminSection", "管理 API（需權杖）")
    ∷ ("setupSection", "初始化 API")
    ∷ ("adminTokenPlaceholder", "輸入管理權杖（選用，用於管理介面測試）")
    ∷ ("runTest", "執行測試")
    ∷ ("testing", "測試中...")
    ∷ ("copyResponse", "複製回應")
    ∷ ("copied", "已複製")
    ∷ ("response", "回應")
    ∷ ("params", "參數")
    ∷ ("example", "範例（curl）")
    ∷ ("descDomains", "取得可用於建立地址的網域列表。")
    ∷ ("descCreateAddress", "建立臨時地址。請求體：username（選用，3-64 字元）、domain（選用，須已設定）。")
    ∷ ("descListEmails", "列出某個地址的郵件。查詢參數：page、per_page（最大 100）、unread_only、search。")
    ∷ ("descGetEmail", "取得郵件完整詳情。查詢參數：mark_read=false 保持未讀。")
    ∷ ("descDeleteEmail", "刪除該地址下的一封郵件。")
    ∷ ("descRawEmail", "下載原始 RFC 5322 郵件（.eml）。")
    ∷ ("descAttachment", "下載郵件的附件。")
    ∷ ("descAdminStats", "儀表板使用的系統級統計。")
    ∷ ("descAdminAddresses", "列出全部地址。查詢參數：page、per_page、search。")
    ∷ ("descAdminAddressDetail", "取得單個地址及其郵件。")
    ∷ ("descAdminDeleteAddress", "刪除地址及其全部郵件。危險操作。")
    ∷ ("descAdminEmails", "列出全站收到的郵件。查詢參數：page、per_page、search。")
    ∷ ("descAdminEmailDetail", "取得單封郵件的完整詳情。")
    ∷ ("descAdminDeleteEmail", "刪除一封郵件。危險操作。")
    ∷ ("descAdminDomains", "列出已設定網域及用量統計。")
    ∷ ("descAdminAddDomain", "新增網域（熱重載，MX 約 15 秒內生效）。")
    ∷ ("descAdminRemoveDomain", "移除網域。危險操作。")
    ∷ ("descAdminConfig", "查看目前設定（敏感資訊去識別化）。")
    ∷ ("descAdminUpdateConfig", "局部更新白名單設定項（熱重載）。")
    ∷ ("descAdminCleanup", "立即執行過期地址清理與儲存上限清理。危險操作。")
    ∷ ("descSetupStatus", "首次設定精靈是否已完成。")
    ∷ ("descHealth", "健康檢查：回報服務與資料庫是否可用（不含任何設定細節）。")
    ∷ ("descAddressInfo", "回傳此權杖綁定的信箱資訊（地址、類型、建立/到期時間）。長效信箱以權杖登入時即靠它取回地址。")
    ∷ ("descCreatePermanent", "建立長效信箱（公開介面、免驗證、有限流）。地址永不過期，郵件依設定的保留天數保存。回傳存取權杖，請立即保存。")
    ∷ ("descCreatePermanentApi", "使用整合 API 金鑰（X-API-Key 標頭）建立長效信箱。結果與公開介面相同，但需驗證，方便外部系統呼叫。")
    ∷ ("descTlsStatus", "查看郵件主機名與面板網域的憑證狀態：檔案是否存在、到期時間與簽發對象。")
    ∷ ("descTlsIssue", "要求 certbot 側車簽發/續期 Let's Encrypt 憑證（HTTP-01 驗證）。需網域解析到本機且 80 埠可連線。")
    ∷ ("descApiKeyStatus", "查詢是否已設定整合 API 金鑰（不會回傳金鑰本身）。")
    ∷ ("descAdminPermanentList", "取得長效地址列表：郵件數、未讀數、佔用儲存與最近收信時間，支援搜尋、分頁與排序。")
    ∷ ("descAdminPermanentStats", "長效地址總覽：總數、儲存佔用、保留期與已設定的數量上限。")
    ∷ ("descAdminPermanentCreate", "在管理面板建立長效信箱。回傳的存取權杖僅顯示一次，是之後讀取該信箱的唯一憑證。")
    ∷ ("descAdminPermanentPurge", "清除某個長效信箱的全部郵件，但保留地址本身。")
    ∷ ("descAdminPermanentRetention", "立即執行保留期清理：刪除超過設定保留天數的郵件。")
    ∷ ("descApiKeyRegenerate", "重新產生整合 API 金鑰。舊金鑰立即失效，新金鑰僅顯示一次。")
    ∷ ("descSetupComplete", "寫入初始設定。僅在初始化前可用。")
    ∷ ("chainTestNote", "自動建立新地址，然後查詢它的郵件列表。")
    ∷ ("destructiveNote", "危險介面僅做文件記錄，不提供一鍵測試。")
    ∷ ("testSuccess", "成功")
    ∷ ("testFailed", "請求失敗")
    ∷ ("closeResponse", "關閉")
    ∷ ("confirmDestructive", "此操作會修改或刪除資料，確定繼續嗎？")
    ∷ ("binaryResponse", "二進位回應（{n} 位元組），無法以文字顯示。")
    ∷ ("fillParams", "請在上方填寫參數後執行測試。")
    ∷ []
