-- ===== src/I18n/TraditionalChinese/PanelRest.antt =====
-- web/lib/i18n/extra-zh.ts: the traditional Chinese texts of the panel, second half.
use wgtemporary_email.Base.{String, [], ◌∷◌}
use wgtemporary_email.Base.Dict.{Dict}

abbrev pub zh_tw_admin_rest : Dict String
zh_tw_admin_rest =
    ("deleteAddressConfirm", "確定刪除該地址嗎？其下所有郵件也會一併刪除，此操作無法復原。")
    ∷ ("domainsTitle", "網域管理")
    ∷ ("dnsCol", "DNS 檢查")
    ∷ ("dnsCheck", "檢查 DNS")
    ∷ ("dnsChecking", "檢查中…")
    ∷ ("dnsOk", "MX 已指向 {host}（可用）")
    ∷ ("dnsMismatch", "MX 未指向本機：目前 {found}（應為 {expected}）")
    ∷ ("dnsNone", "查無 MX 記錄")
    ∷ ("dnsError", "DNS 查詢失敗：{err}")
    ∷ ("dnsHint", "網域必須將 MX 記錄指向本機才能收信——新增後請在此檢查確認。")
    ∷ ("addDomain", "新增網域")
    ∷ ("addDomainPlaceholder", "例如 temp.example.com")
    ∷ ("add", "新增")
    ∷ ("domainDnsHint", "新增後需在 DNS 服務商處為該網域設定 MX 記錄指向本伺服器，否則無法收信。")
    ∷ ("configuredDomainsTitle", "已設定網域（{n}）")
    ∷ ("domainCol", "網域")
    ∷ ("addressCountCol", "地址數")
    ∷ ("noDomainsConfigured", "未設定網域")
    ∷ ("cannotRemoveLast", "不能刪除最後一個網域")
    ∷ ("removeDomain", "移除網域")
    ∷ ("removeDomainConfirm", "確定移除網域 {domain} 嗎？該網域下現有地址的郵件仍保留，但 MX 將不再接收發往該網域的新郵件。")
    ∷ ("domainAdded", "已新增網域 {domain}。API 立即生效，MX 收信服務約 15 秒內生效。")
    ∷ ("domainRemoved", "已移除網域 {domain}（受影響的地址 {n} 個）。")
    ∷ ("addFailed", "新增失敗，請重試")
    ∷ ("removeFailed", "移除失敗，請重試")
    ∷ ("configTitle", "系統設定")
    ∷ ("configHotReloadNote", "修改儲存後立即熱重載生效，無需重新啟動服務。寫入 config.yaml 時會移除其中的註解。")
    ∷ ("mailSection", "郵件與地址")
    ∷ ("mailSectionDesc", "tempmail / server 相關參數")
    ∷ ("maxMsgSizeMb", "單封郵件大小上限 (MB)")
    ∷ ("addressLifetime", "地址有效期 (小時)")
    ∷ ("maxEmailsPerAddress", "每個地址最多郵件數")
    ∷ ("maxStorageMb", "總儲存占用上限 (MB，0 不限制)")
    ∷ ("cleanupInterval", "清理任務間隔 (小時)")
    ∷ ("rateLimitSection", "限流（每分鐘每 IP）")
    ∷ ("rateLimitDesc", "填 0 表示關閉該限制；修改後立即生效。建立類限流依 IP 計算，同一出口 IP（如公司網路）下的多位使用者共用同一額度。")
    ∷ ("rlAddressCreate", "臨時地址建立 / 分鐘")
    ∷ ("rlPermanentCreate", "長效地址建立 / 分鐘")
    ∷ ("rlApiCreate", "API 金鑰建立 / 分鐘")
    ∷ ("rlSetup", "首次精靈 / 分鐘")
    ∷ ("rlAdmin", "管理介面 / 分鐘")
    ∷ ("rlEmailRead", "信箱讀取與下載 / 分鐘")
    ∷ ("minUsernameLength", "使用者名稱最短長度")
    ∷ ("maxUsernameLength", "使用者名稱最長長度")
    ∷ ("storageCapHint", "0 表示不限制；超過上限時清理任務會按「最舊郵件優先」刪除，直到低於該值。")
    ∷ ("mailHostname", "郵件伺服器主機名稱")
    ∷ ("hostnameHint", "修改後需重新啟動 MX 容器，SMTP 橫幅中的主機名稱才會更新。")
    ∷ ("tokenSection", "管理權杖")
    ∷ ("tokenSectionDesc", "修改後需使用新權杖重新登入管理面板")
    ∷ ("tokenPlaceholder", "輸入新權杖（留空則不修改）")
    ∷ ("tokenHint", "至少 8 個字元，建議 16 個以上")
    ∷ ("switchesSection", "功能開關")
    ∷ ("docsEnabled", "啟用 API 文件 (/docs Swagger)")
    ∷ ("allowCustomUsernames", "允許自訂使用者名稱")
    ∷ ("checkDkim", "驗證 DKIM")
    ∷ ("checkSpf", "驗證 SPF")
    ∷ ("checkDmarc", "驗證 DMARC")
    ∷ ("storeResults", "儲存驗證結果")
    ∷ ("databaseSection", "資料庫")
    ∷ ("poolSize", "資料庫連線池大小")
    ∷ ("maxOverflow", "連線池最大溢出")
    ∷ ("poolHint", "注意：pool_size / max_overflow 修改後需要重新啟動 API 容器才會真正生效（連線池在啟動時建立）。")
    ∷ ("corsSection", "CORS 允許來源")
    ∷ ("corsDesc", "每行一個來源，輸入 * 表示允許所有")
    ∷ ("saveReload", "儲存並熱重載")
    ∷ ("saving", "儲存中...")
    ∷ ("nothingToSave", "沒有需要儲存的修改")
    ∷ ("savedReloaded", "設定已儲存並熱重載（無需重新啟動服務）")
    ∷ ("restartRequired", "已儲存。部分變更（CORS、資料庫連線池、單封郵件大小上限）需重啟容器後生效。")
    ∷ ("currentConfigTitle", "目前完整設定（敏感資訊已去識別化）")
    ∷ ("saveFailed", "儲存失敗，請重試")
    ∷ ("intMinError", "必須是 ≥{n} 的整數")
    ∷ ("tokenUpdated", "管理權杖已更新，請使用新權杖重新登入")
    ∷ ("apiKeyTitle", "整合 API 金鑰")
    ∷ ("apiKeyDesc", "用於透過 API 建立長效信箱（POST /api/v1/api/addresses，X-API-Key 請求標頭）")
    ∷ ("apiKeyStatusConfigured", "已設定")
    ∷ ("apiKeyNotSet", "未設定")
    ∷ ("apiKeyRegenerate", "重新產生")
    ∷ ("apiKeyNew", "新的 API 金鑰（僅顯示一次，請立即保存）：")
    ∷ ("apiKeyCopy", "複製金鑰")
    ∷ ("apiKeyConfirm", "確定重新產生 API 金鑰嗎？舊金鑰將立即失效。")
    ∷ ("tlsTitle", "TLS 憑證（Let's Encrypt）")
    ∷ ("tlsEnabledLabel", "啟用 TLS/STARTTLS")
    ∷ ("tlsStatusLabel", "狀態")
    ∷ ("tlsCertIssued", "憑證已簽發")
    ∷ ("tlsCertNotIssued", "尚未簽發憑證")
    ∷ ("tlsExpires", "到期時間：{date}")
    ∷ ("tlsIssuer", "頒發機構：{issuer}")
    ∷ ("tlsEmailLabel", "通知信箱")
    ∷ ("tlsEmailPlaceholder", "admin@example.com")
    ∷ ("tlsIssueBtn", "簽發 / 續期憑證")
    ∷ ("tlsIssuing", "簽發中…（一般一分鐘內完成）")
    ∷ ("tlsIssueSubmitted", "已提交簽發任務…")
    ∷ ("tlsIssueSuccess", "憑證簽發成功，現在可以啟用 TLS 了。")
    ∷ ("tlsIssueFailed", "簽發失敗：{msg}")
    ∷ ("tlsIssueBusy", "已有簽發任務進行中")
    ∷ ("tlsAutoRenewNote", "憑證會在到期前 30 天自動續期；續期後 MX 無需重新啟動即可生效。")
    ∷ ("tlsHostnameNote", "憑證將簽發到郵件伺服器主機名稱（{hostname}）。其 A 記錄需指向本伺服器，且 80 連接埠需公網可達。")
    ∷ ("tlsJobRunning", "簽發任務進行中…")
    ∷ ("tlsLastRenew", "上次續期檢查：{date}")
    ∷ ("webHostnameLabel", "面板存取網域")
    ∷ ("webHostnameHint", "留空則透過郵件主機名稱存取面板。HTTPS 憑證會同時涵蓋兩個名稱。")
    ∷ ("mxHostnameNote", "此名稱用於郵件路由（DNS 的 MX 記錄指向它），請勿將其作為面板存取地址——請在下方設定正式存取網域。")
    ∷ ("webHostnameEmptyNote", "尚未設定面板存取網域。建議使用正式網域（如 mail.example.com）存取面板，而不是 MX 主機名稱。")
    ∷ ("webHostnameUpdated", "已儲存。記得為該網域新增 DNS A 記錄並重新簽發憑證。")
    ∷ ("allowIpAccessLabel", "允許透過 IP / 其他網域存取使用者面板")
    ∷ (
      "allowIpAccessHint", "關閉後，透過非正式網域或 IP 存取使用者面板會被重新導向到正式網域；管理面板與 API 永遠可透過任何位址存取，防止無法關閉網域時被鎖死。",
    )
    ∷ ("httpsUrl", "面板 HTTPS 網址：https://{host}")
    ∷ ("certCovers", "憑證涵蓋：{domains}")
    ∷ ("cleanupTitle", "資料清理")
    ∷ ("cleanupCardTitle", "手動清理過期地址")
    ∷ (
      "cleanupDesc",
      "系統會按設定的週期自動清理（目前每 {h} 小時一次），清理內容包括：過期地址、以及超出總儲存上限（{m} MB，0 為不限制）的最舊郵件。也可以在這裡立即執行一次。",
    )
    ∷ ("currentAddresses", "目前共 {total} 個地址，其中使用中 {active} 個。")
    ∷ ("runNow", "立即清理")
    ∷ ("cleaning", "清理中...")
    ∷ ("cleanupDone", "清理完成（{time}）")
    ∷ ("deletedAddresses", "刪除過期地址：{n} 個")
    ∷ ("deletedEmails", "因超出儲存上限刪除郵件：{n} 封")
    ∷ ("storageChanged", "儲存占用：{a} → {b}")
    ∷ ("cleanupFailed", "清理失敗，請重試")
    ∷ ("cleanupConfirm", "立即執行過期地址清理？將刪除所有已過期地址及其郵件。")
    ∷ ("autoCleanupRetention", "長效信箱：超過 {d} 天的郵件自動刪除")
    ∷ ("retentionDeletedEmails", "因超過保留期限刪除的郵件：{n} 封")
    ∷ ("autoCleanupTitle", "自動清理機制")
    ∷ ("autoCleanupMail", "郵件資料：過期地址（每 {h} 小時）與超出儲存上限（{m} MB）的最舊郵件")
    ∷ ("autoCleanupLogs", "容器日誌：每個容器自動輪轉（10 MB × 3 份，最多 30 MB）")
    ∷ ("autoCleanupBuild", "Docker 建置快取：每週自動清理")
    ∷ ("autoCleanupApt", "apt 快取：每月自動清理")
    ∷ ("autoCleanupJournald", "系統日誌（journald）：上限 200 MB")
    ∷ []
